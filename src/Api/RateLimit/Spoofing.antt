-- ===== src/Api/RateLimit/Spoofing.antt =====
-- What a client can do to the address of crates/api/src/rate_limit/key.rs by the headers it sends.
use thewiki.Prelude.{
  ◌≡◌, refl, ap, sym, ◌∙◌, ℕ, Option, some, none, Bool, true, false, not, List, [], ◌∷◌, ◌++◌, inl,
  inr, ◌⊎◌,
}
use thewiki.Prelude.Lists.{find, any}
use thewiki.Prelude.Tests.{◌==◌, ==_refl, Bool-cases, Option-cases}
use thewiki.Prelude.Text.{Text, split}
use thewiki.Api.RateLimit.{
  x_forwarded_for, RateLimitConfig, Request, keep, filter_map, unwrap_or, and_then_some, localhost,
  parse_forwarded_ip, x_forwarded_for_ip, forwarded_ip, peer_ip,
}
use mathlib.Core.List.{reverse, reverse-append}
use native.Mathlib.Omega.{arith}

split-cons :
    (d : ℕ) (s : Text) → (piece : Text) × (pieces : List Text) × (split d s ≡ piece ∷ pieces)
split-cons d [] = ([], [], refl)
split-cons d (c ∷ s) =
    let (piece, pieces, e) = split-cons d s in
    elim (Bool-cases (c == d)) [
      | inl h ↦ ([], split d s, rw h refl)
      | inr h ↦ (c ∷ piece, pieces, rw (h, e) refl)
    ]

split-append : (d : ℕ) (s t : Text) → split d (s ++ d ∷ t) ≡ split d s ++ split d t
split-append d [] t = rw (==_refl d) refl
split-append d (c ∷ s) t =
    let (piece, pieces, e) = split-cons d s in
    elim (Bool-cases (c == d)) [
      | inl h ↦ rw (h, split-append d s t) refl
      | inr h ↦ rw (h, split-append d s t, e) refl
    ]

keep-append : {B : Type 0} (o : Option B) (xs ys : List B) → keep o (xs ++ ys) ≡ keep o xs ++ ys
keep-append none xs ys = refl
keep-append (some y) xs ys = refl

filter_map-append :
    {A B : Type 0} (f : A → Option B) (xs ys : List A)
    → filter_map f (xs ++ ys) ≡ filter_map f xs ++ filter_map f ys
filter_map-append f [] ys = refl
filter_map-append f (x ∷ xs) ys =
    ap (keep (f x)) (filter_map-append f xs ys)
    ∙ keep-append (f x) (filter_map f xs) (filter_map f ys)

find-append :
    {A : Type 0} (p : A → Bool) (xs ys : List A) (x : A)
    → find p xs ≡ some x
    → find p (xs ++ ys) ≡ some x
find-append p [] ys x h = ground arith
find-append p (y ∷ xs) ys x h = elim (Bool-cases (p y)) [
  | inl e ↦ ground arith
  | inr e ↦ ground (arith, find-append p xs ys x)
]

find-holds : {A : Type 0} (p : A → Bool) (xs : List A) (x : A) → find p xs ≡ some x → p x ≡ true
find-holds p [] x h = ground arith
find-holds p (y ∷ xs) x h = ground (arith, find-holds p xs x)

not-true : (b : Bool) → not b ≡ true → b ≡ false
not-true true h = ground arith
not-true false h = refl

module _ (parse : Text → Option ℕ) where
  x_forwarded_for_ip-append :
      (spoofed raw : Text) (trusted : List ℕ) (ip : ℕ)
      → x_forwarded_for_ip parse raw trusted ≡ some ip
      → x_forwarded_for_ip parse (spoofed ++ 44 ∷ raw) trusted ≡ some ip
  unfolding x_forwarded_for_ip
  x_forwarded_for_ip-append spoofed raw trusted ip h =
      let foreign : ℕ → Bool = λ a. not (any (λ p. p == a) trusted) in
      let read = filter_map (parse_forwarded_ip parse) in
      ap (λ pieces. find foreign (read (reverse pieces))) (split-append 44 spoofed raw)
      ∙ ap (λ pieces. find foreign (read pieces)) (reverse-append (split 44 spoofed) (split 44 raw))
      ∙ ap (find foreign) (
          filter_map-append (parse_forwarded_ip parse) (reverse (split 44 raw))
            (reverse (split 44 spoofed)))
      ∙ find-append foreign (read (reverse (split 44 raw))) (read (reverse (split 44 spoofed))) ip h

  -- With the header `x-forwarded-for` configured, if the part that the proxies wrote has an address that
  -- is not a trusted proxy's, then the address a request is charged to is the same with any text and a
  -- comma before that part.
  pub peer_ip-spoofed :
      (request : Request) (config : RateLimitConfig) (spoofed raw : Text) (ip : ℕ)
      → config.client_ip_header ≡ some x_forwarded_for
      → x_forwarded_for_ip parse raw config.trusted_proxies ≡ some ip
      → peer_ip parse (record request { forwarded_for = some (spoofed ++ 44 ∷ raw) }) config
        ≡ peer_ip parse (record request { forwarded_for = some raw }) config
  unfolding peer_ip
  peer_ip-spoofed request config spoofed raw ip e h =
      rw (e, h, x_forwarded_for_ip-append spoofed raw config.trusted_proxies ip h) refl

  x_forwarded_for_ip-foreign :
      (raw : Text) (trusted : List ℕ) (ip : ℕ)
      → x_forwarded_for_ip parse raw trusted ≡ some ip
      → any (λ p. p == ip) trusted ≡ false
  unfolding x_forwarded_for_ip
  x_forwarded_for_ip-foreign raw trusted ip h = not-true (any (λ p. p == ip) trusted) (
      find-holds (λ a. not (any (λ p. p == a) trusted))
        (filter_map (parse_forwarded_ip parse) (reverse (split 44 raw))) ip h)

  forwarded_ip-foreign :
      (request : Request) (config : RateLimitConfig) (ip : ℕ)
      → forwarded_ip parse request x_forwarded_for config ≡ some ip
      → any (λ p. p == ip) config.trusted_proxies ≡ false
  forwarded_ip-foreign request config ip h = elim (Option-cases request.forwarded_for) [
    | inl e ↦ ground (arith, e, h)
    | inr (raw, e) ↦ x_forwarded_for_ip-foreign raw config.trusted_proxies ip (
        ap (λ o. and_then_some o (λ r. x_forwarded_for_ip parse r config.trusted_proxies)) (sym e)
        ∙ h)
  ]

  -- With the header `x-forwarded-for` configured, the address is the peer's, or the local host's without
  -- a peer, unless that one is a trusted proxy's, and then an address from the header is no trusted proxy's.
  peer_ip-origin :
      (request : Request) (config : RateLimitConfig)
      → config.client_ip_header ≡ some x_forwarded_for
      → (peer_ip parse request config ≡ unwrap_or request.connect_info localhost)
        ⊎ ((any (λ p. p == unwrap_or request.connect_info localhost) config.trusted_proxies ≡ true)
            × (any (λ p. p == peer_ip parse request config) config.trusted_proxies ≡ false))
  unfolding peer_ip
  peer_ip-origin request config e =
      elim (Bool-cases
        (any (λ p. p == unwrap_or request.connect_info localhost) config.trusted_proxies)) [
          | inr t ↦ inl (rw t refl)
          | inl t ↦ elim (Option-cases (forwarded_ip parse request x_forwarded_for config)) [
            | inl f ↦ inl (rw (t, e, f) refl)
            | inr (ip, f) ↦ inr (t, rw (t, e, f) (forwarded_ip-foreign request config ip f))
          ]
        ]
