-- ===== src/Api/Signature.antt =====
-- crates/api/src/pages/signature.rs: `~~~~` becomes the author and the time.
use thewiki.Prelude.{ℕ, zero, suc, [], ◌∷◌, ◌++◌}
use thewiki.Prelude.Tests.{if◌then◌else◌}
use thewiki.Prelude.Text.{Text, codes, starts_with}

abbrev pub signature_marker : Text
signature_marker = codes "~~~~"

-- `str::replace` of the marker; the number counts the characters of a marker still to be skipped.
unfoldable pub replace_markers : Text → Text → ℕ → Text
replace_markers replacement [] skip = []
replace_markers replacement (c ∷ s) (suc skip) = replace_markers replacement s skip
replace_markers replacement (c ∷ s) zero =
    let signed = replace_markers replacement s 3 in
    let plain = replace_markers replacement s 0 in
    if starts_with signature_marker (c ∷ s) then replacement ++ signed else c ∷ plain

-- Without a marker `replace` gives the text back, so the test before it needs no case.
unfoldable pub expand_signatures_with : Text → Text → Text → Text
expand_signatures_with body username timestamp =
    replace_markers (codes "[[User:" ++ (username ++ (codes "]] " ++ timestamp))) body 0
