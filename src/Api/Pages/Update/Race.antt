-- ===== src/Api/Pages/Update/Race.antt =====
-- Two updates of one page that both read it before either commits.
use thewiki.Prelude.Text.{Text}
use thewiki.Core.Page.{Page}
use thewiki.Api.Editor.{Editor}
