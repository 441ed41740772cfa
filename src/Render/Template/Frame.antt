-- ===== src/Render/Template/Frame.antt =====
-- The data of the expansion in crates/render/src/template.rs, and the cache that it threads as
-- state. A worker that calls `expand_body` is given it as `rec`, so that fuel falls at each nested
-- call of `expand_body` and nowhere else. The stack is part of a call's frame: `push` and `pop`
-- enclose the one call that sees the longer stack.
use thewiki.Prelude.{◌≡◌, ap, ℕ, Bool, true, false, Option, none, some, List}
use thewiki.Prelude.Text.{Text}
use thewiki.Render.Template.Diagnostics.{Site}

pub record TemplateSource : Type 0 where
  pub id : Text
  pub revision_id : Text
  pub body : Text

-- the trait `TemplateResolver`
pub record Resolver : Type 0 where
  pub resolve : Text → Text → Option TemplateSource
  pub namespace_exists : Text → Bool

pub record Arg : Type 0 where
  pub name : Text
  pub value : Text

abbrev pub Cache : Type 0
Cache = List ((Text × Text) × TemplateSource)

-- `none` means that the fuel ran out.
abbrev pub Run : Type 0 → Type 0
Run A = Cache → Option (A × Cache)

abbrev pub resume : {A B : Type 0} → Option (A × Cache) → (A → Run B) → Option (B × Cache)
resume none f = none
resume (some (a, cache)) f = f a cache

infixl 5 ◌>>=◌
unfoldable pub ◌>>=◌ : {A B : Type 0} → Run A → (A → Run B) → Run B
◌>>=◌ m f cache = resume (m cache) f

unfoldable pub pure : {A : Type 0} → A → Run A
pure a cache = some (a, cache)

pub bind_pure : {A B : Type 0} (m : Run A) (a : A) (f : A → Run B) → m ≡ pure a → (m >>= f) ≡ f a
unfolding ◌>>=◌ pure
bind_pure m a f e = ap (λ n. n >>= f) e

-- What one call of `expand_body` is given beside the cache. `in_template` is only tested for
-- being there.
pub record Frame : Type 0 where
  pub args : List Arg
  pub in_template : Option Text
  pub stack : List Text
  pub depth : ℕ
  pub root_site : Option Site

abbrev pub Rec : Type 0
Rec = Frame → Text → Run Text

abbrev pub is_some {ℓ} : {A : Type ℓ} → Option A → Bool
is_some none = false
is_some (some a) = true

abbrev pub or_else {ℓ} : {A : Type ℓ} → Option A → A → A
or_else none d = d
or_else (some a) d = a
