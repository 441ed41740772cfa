-- ===== src/Api/Pages/Update/Live.antt =====
-- What a live update that succeeds has done.
use thewiki.Prelude.{some}
use thewiki.Prelude.Result.{Result}
use thewiki.Prelude.Text.{Text}
use thewiki.Core.Page.{Page, Namespace}
use thewiki.Core.Revision.{Revision, new}
use thewiki.Storage.PageAudit.Published.{Published}
use thewiki.Api.Editor.{Editor}
use thewiki.Api.Exec.{Exec}
use thewiki.Api.Pages.{Env, signed}
use thewiki.Api.Pages.Update.{UpdatePageRequest}

abbrev edited_page : Env → UpdatePageRequest → Page → Page
edited_page env req row = record row { current_revision_id = some env.fresh_revision }

-- the revision that an update of the page makes
abbrev pub edit_revision : Env → Editor → UpdatePageRequest → Namespace → Page → Revision
edit_revision env editor req namespace page =
    new env.fresh_revision env.now_utc page.id page.current_revision_id editor.user_id
      (signed env editor namespace req.content) req.edit_summary
