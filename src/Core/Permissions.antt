-- ===== src/Core/Permissions.antt =====
-- The flags of crates/core/src/permissions.rs, a `u32`.
pub mod Bits
use thewiki.Prelude.{ℕ, zero, suc, ◌+◌, ◌-◌, ◌*◌, ◌/◌, ◌%◌, Bool, not, List, [], ◌∷◌}
use thewiki.Prelude.Tests.{◌==◌}
use thewiki.Prelude.Text.{Text, codes}

-- `&` on the lowest bits, as many as the first number says
unfoldable pub bit_and : ℕ → ℕ → ℕ → ℕ
bit_and zero a b = 0
bit_and (suc w) a b = (a % 2) * (b % 2) + 2 * bit_and w (a / 2) (b / 2)

-- `|` on the lowest bits
unfoldable pub bit_or : ℕ → ℕ → ℕ → ℕ
bit_or zero a b = 0
bit_or (suc w) a b = (a % 2 + b % 2 - (a % 2) * (b % 2)) + 2 * bit_or w (a / 2) (b / 2)

unfoldable pub union : ℕ → ℕ → ℕ
unfolding bit_or
union a b = bit_or 32 a b

unfoldable pub contains : ℕ → ℕ → Bool
unfolding bit_and
contains bits flags = bit_and 32 bits flags == flags

unfoldable pub intersects : ℕ → ℕ → Bool
unfolding bit_and
intersects bits flags = not (bit_and 32 bits flags == 0)

abbrev pub read : ℕ
read = 1

abbrev pub edit : ℕ
edit = 2

abbrev pub create : ℕ
create = 4

abbrev pub delete : ℕ
delete = 8

abbrev pub move : ℕ
move = 16

abbrev pub protect : ℕ
protect = 32

abbrev pub manage_users : ℕ
manage_users = 64

abbrev pub manage_roles : ℕ
manage_roles = 128

abbrev pub manage_namespaces : ℕ
manage_namespaces = 256

abbrev pub view_audit_log : ℕ
view_audit_log = 512

abbrev pub manage_blocklist : ℕ
manage_blocklist = 1024

abbrev pub review_edits : ℕ
review_edits = 2048

-- `Permissions::FLAGS`, names and values in the order of their declaration.
abbrev pub flags : List (Text × ℕ)
flags =
    (codes "READ", read)
    ∷ (codes "EDIT", edit)
    ∷ (codes "CREATE", create)
    ∷ (codes "DELETE", delete)
    ∷ (codes "MOVE", move)
    ∷ (codes "PROTECT", protect)
    ∷ (codes "MANAGE_USERS", manage_users)
    ∷ (codes "MANAGE_ROLES", manage_roles)
    ∷ (codes "MANAGE_NAMESPACES", manage_namespaces)
    ∷ (codes "VIEW_AUDIT_LOG", view_audit_log)
    ∷ (codes "MANAGE_BLOCKLIST", manage_blocklist)
    ∷ (codes "REVIEW_EDITS", review_edits)
    ∷ []
