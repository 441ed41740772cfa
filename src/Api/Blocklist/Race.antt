-- ===== src/Api/Blocklist/Race.antt =====
-- Two creations of crates/api/src/admin/blocklist.rs at once: each reads the tables for its snapshot and
-- installs the snapshot in two steps, between which the other may run.
use thewiki.Prelude.{
  ◌≡◌, refl, ap, ◌∙◌, ℕ, Option, some, none, Bool, true, false, List, [], ◌∷◌, inl, inr,
}
use thewiki.Prelude.Lists.{any}
use thewiki.Prelude.Result.{ok, err, Result-cases}
use thewiki.Storage.Schema.{StorageError}
use thewiki.Storage.Blocklists.{Entry, Blocklists, insert_entry}
use thewiki.Api.Exec.{ApiError, from_storage}
use thewiki.Api.Admin.{Actor}
use thewiki.Api.Blocklist.{Matchers, BlocklistSnapshot, contains_ip, snapshot_of, refresh_from}
use thewiki.Api.Blocklist.Handlers.{
  Server, Kind, ip, rows_of, with_rows, refreshed, already_exists, add, create_event, log,
}
use thewiki.Api.Blocklist.Sync.{blocks, any-nets_of, Combines, refresh_from-Combines}
use native.Mathlib.Omega.{arith}

-- How far a creation is.
pub data Phase (Net : Type 0) : Type 0 where
  starting : Kind → Entry → Phase Net
  stored : Kind → Entry → Phase Net
  has_read : BlocklistSnapshot Net → Kind → Entry → Phase Net
  installed : Kind → Entry → Phase Net
  answered : Phase Net
  failed : ApiError → Phase Net

module _ {Net Ip : Type 0} (m : Matchers Net Ip) (actor : Actor) where
  abbrev pub step : Phase Net → Server Net → Phase Net × Server Net
  step (starting kind entry) server =
      let lists = server.lists in
      elim (insert_entry (already_exists kind) entry lists.users (rows_of kind lists)) [
        | err e ↦ (failed (from_storage e), server)
        | ok rows ↦ (
          stored kind entry,
          record { lists = with_rows kind rows lists; blocklist = server.blocklist },
        )
      ]
  step (stored kind entry) server = elim server.blocklist [
    | none ↦ (installed kind entry, server)
    | some stale ↦ elim (refresh_from m server.lists) [
      | err e ↦ (failed (from_storage e), server)
      | ok snapshot ↦ (has_read snapshot kind entry, server)
    ]
  ]
  step (has_read snapshot kind entry) server =
      (installed kind entry, record { lists = server.lists; blocklist = some snapshot })
  step (installed kind entry) server = (answered, log (create_event m actor kind entry) server)
  step answered server = (answered, server)
  step (failed e) server = (failed e, server)

  -- One creation's step after the other's, the first one's at `true`.
  abbrev pub run :
      List Bool → Phase Net → Phase Net → Server Net → Phase Net × (Phase Net × Server Net)
  run [] a b server = (a, (b, server))
  run (true ∷ turns) a b server = let next = step a server in run turns next.0 b next.1
  run (false ∷ turns) a b server = let next = step b server in run turns a next.0 next.1

  abbrev pub then_step : Phase Net × Server Net → Phase Net × Server Net
  then_step (phase, server) = step phase server

  abbrev pub four_steps : Phase Net → Server Net → Phase Net × Server Net
  four_steps a server = then_step (then_step (then_step (step a server)))

  inserted-blocks :
      (b : Entry) (users : List ℕ) (rows rows_b : List Entry) (address : Ip)
      → insert_entry (already_exists ip) b users rows ≡ ok rows_b
      → blocks m b address ≡ true
      → any (λ e. blocks m e address) rows_b ≡ true
  unfolding insert_entry
  inserted-blocks b users rows rows_b address h hit = ground arith

  abbrev pub server_of : Blocklists → Option (BlocklistSnapshot Net) → Server Net
  server_of lists blocklist = record { lists = lists; blocklist = blocklist }

  step-starting :
      (kind : Kind) (entry : Entry) (rows : List Entry) (lists : Blocklists)
      (blocklist : Option (BlocklistSnapshot Net))
      → insert_entry (already_exists kind) entry lists.users (rows_of kind lists) ≡ ok rows
      → step (starting kind entry) (server_of lists blocklist)
        ≡ (stored kind entry, server_of (with_rows kind rows lists) blocklist)
  step-starting kind entry rows lists blocklist h = rw (step, h) refl

  step-failed :
      (kind : Kind) (entry : Entry) (e : StorageError) (lists : Blocklists)
      (blocklist : Option (BlocklistSnapshot Net))
      → insert_entry (already_exists kind) entry lists.users (rows_of kind lists) ≡ err e
      → step (starting kind entry) (server_of lists blocklist)
        ≡ (failed (from_storage e), server_of lists blocklist)
  step-failed kind entry e lists blocklist h = rw (step, h) refl

  step-stored :
      (kind : Kind) (entry : Entry) (lists : Blocklists) (stale snapshot : BlocklistSnapshot Net)
      → refresh_from m lists ≡ ok snapshot
      → step (stored kind entry) (server_of lists (some stale))
        ≡ (has_read snapshot kind entry, server_of lists (some stale))
  step-stored kind entry lists stale snapshot h = rw (step, h) refl

  step-unread :
      (kind : Kind) (entry : Entry) (lists : Blocklists) (stale : BlocklistSnapshot Net)
      (e : StorageError)
      → refresh_from m lists ≡ err e
      → step (stored kind entry) (server_of lists (some stale))
        ≡ (failed (from_storage e), server_of lists (some stale))
  step-unread kind entry lists stale e h = rw (step, h) refl

  three_more :
      (kind : Kind) (entry : Entry) (lists : Blocklists)
      (blocklist : Option (BlocklistSnapshot Net))
      → (then_step (then_step (step (stored kind entry) (server_of lists blocklist)))).1
        ≡ (refreshed m (create_event m actor kind entry) entry lists blocklist).1
  three_more kind entry lists none = refl
  three_more kind entry lists (some stale) = elim (Result-cases (refresh_from m lists)) [
    | inl (snapshot, p) ↦
        ap (λ n. (then_step (then_step n)).1) (step-stored kind entry lists stale snapshot p)
        ∙ rw (refreshed, p) refl
    | inr (e, p) ↦
        ap (λ n. (then_step (then_step n)).1) (step-unread kind entry lists stale e p)
        ∙ rw (refreshed, p) refl
  ]

  -- A creation that nothing interrupts leaves what the handler leaves.
  four_steps-add :
      (kind : Kind) (entry : Entry) (lists : Blocklists)
      (blocklist : Option (BlocklistSnapshot Net))
      → (four_steps (starting kind entry) (server_of lists blocklist)).1
        ≡ (add m actor kind entry (server_of lists blocklist)).1
  four_steps-add kind entry lists blocklist =
      elim (Result-cases
        (insert_entry (already_exists kind) entry lists.users (rows_of kind lists))) [
          | inr (e, p) ↦
              ap (λ n. (then_step (then_step (then_step n))).1)
                (step-failed kind entry e lists blocklist p)
              ∙ rw (add, p) refl
          | inl (rows, p) ↦
              ap (λ n. (then_step (then_step (then_step n))).1)
                (step-starting kind entry rows lists blocklist p)
              ∙ three_more kind entry (with_rows kind rows lists) blocklist
              ∙ rw (add, p) refl
        ]

  first_moves :
      (turns : List Bool) (a b : Phase Net) (server : Server Net) (next : Phase Net × Server Net)
      → step a server ≡ next
      → run (true ∷ turns) a b server ≡ run turns next.0 b next.1
  first_moves turns a b server next p = ap (λ n. run turns n.0 b n.1) p

  second_moves :
      (turns : List Bool) (a b : Phase Net) (server : Server Net) (next : Phase Net × Server Net)
      → step b server ≡ next
      → run (false ∷ turns) a b server ≡ run turns a next.0 next.1
  second_moves turns a b server next p = ap (λ n. run turns a n.0 n.1) p

  -- The second creation runs as a whole between the first one's reading and its installation.
  abbrev pub overtaking : List Bool
  overtaking = true ∷ true ∷ false ∷ false ∷ false ∷ false ∷ true ∷ true ∷ []

  abbrev left_by : Kind → Entry → Entry → Blocklists → BlocklistSnapshot Net → Server Net
  left_by kind a b lists snapshot = log (create_event m actor kind a) (
      server_of (log (create_event m actor ip b) (server_of lists (some snapshot))).lists
        (some snapshot))

  overtaking-run :
      (kind : Kind) (a b : Entry) (lists : Blocklists) (stale : BlocklistSnapshot Net)
      (rows_a rows_b : List Entry)
      → Combines m
      → insert_entry (already_exists kind) a lists.users (rows_of kind lists) ≡ ok rows_a
      → insert_entry
          (already_exists ip)
          b
          (with_rows kind rows_a lists).users
          (with_rows kind rows_a lists).ip_blocklist
        ≡ ok rows_b
      → run overtaking (starting kind a) (starting ip b) (server_of lists (some stale)) ≡ (
        answered,
        (
          answered,
          left_by kind a b
              (with_rows ip rows_b (with_rows kind rows_a lists))
              (snapshot_of m (with_rows kind rows_a lists)),
        ),
      )
  overtaking-run kind a b lists stale rows_a rows_b combines pa pb =
      let lists_a = with_rows kind rows_a lists in
      let lists_b = with_rows ip rows_b lists_a in
      first_moves (true ∷ false ∷ false ∷ false ∷ false ∷ true ∷ true ∷ []) (starting kind a)
        (starting ip b) (server_of lists (some stale))
        (stored kind a, server_of lists_a (some stale))
        (step-starting kind a rows_a lists (some stale) pa)
      ∙ first_moves (false ∷ false ∷ false ∷ false ∷ true ∷ true ∷ []) (stored kind a)
          (starting ip b) (server_of lists_a (some stale))
          (has_read (snapshot_of m lists_a) kind a, server_of lists_a (some stale))
          (step-stored kind a lists_a stale (snapshot_of m lists_a)
            (refresh_from-Combines m lists_a combines))
      ∙ second_moves (false ∷ false ∷ false ∷ true ∷ true ∷ [])
          (has_read (snapshot_of m lists_a) kind a) (starting ip b) (server_of lists_a (some stale))
          (stored ip b, server_of lists_b (some stale))
          (step-starting ip b rows_b lists_a (some stale) pb)
      ∙ second_moves (false ∷ false ∷ true ∷ true ∷ []) (has_read (snapshot_of m lists_a) kind a)
          (stored ip b) (server_of lists_b (some stale))
          (has_read (snapshot_of m lists_b) ip b, server_of lists_b (some stale))
          (step-stored ip b lists_b stale (snapshot_of m lists_b)
            (refresh_from-Combines m lists_b combines))

  -- If the set of expressions always compiles, both creations can be stored one after the other, the
  -- second one's range holds an address and no row before it does, then both are answered with success
  -- when the second one runs as a whole between the first one's reading of the tables and its
  -- installation, and in the end the stored list blocks the address and the snapshot does not.
  pub overtaking-stale :
      (kind : Kind) (a b : Entry) (lists : Blocklists) (stale : BlocklistSnapshot Net)
      (rows_a rows_b : List Entry) (address : Ip)
      → Combines m
      → insert_entry (already_exists kind) a lists.users (rows_of kind lists) ≡ ok rows_a
      → insert_entry
          (already_exists ip)
          b
          (with_rows kind rows_a lists).users
          (with_rows kind rows_a lists).ip_blocklist
        ≡ ok rows_b
      → any (λ e. blocks m e address) (with_rows kind rows_a lists).ip_blocklist ≡ false
      → blocks m b address ≡ true
      → let end = run overtaking (starting kind a) (starting ip b) (server_of lists (some stale)) in
        (end.0 ≡ answered)
        × (end.1.0 ≡ answered)
        × (any (λ e. blocks m e address) end.1.1.lists.ip_blocklist ≡ true)
        × ((snapshot : BlocklistSnapshot Net) × (end.1.1.blocklist ≡ some snapshot)
            × (contains_ip m snapshot address ≡ false))
  overtaking-stale kind a b lists stale rows_a rows_b address combines pa pb free hit =
      let lists_a = with_rows kind rows_a lists in
      let ran = overtaking-run kind a b lists stale rows_a rows_b combines pa pb in
      (
        ap (λ n. n.0) ran,
        ap (λ n. n.1.0) ran,
        ap (λ n. any (λ e. blocks m e address) n.1.1.lists.ip_blocklist) ran
            ∙ inserted-blocks b lists_a.users lists_a.ip_blocklist rows_b address pb hit,
        (
          snapshot_of m lists_a,
          ap (λ n. n.1.1.blocklist) ran,
          any-nets_of m lists_a.ip_blocklist address ∙ free,
        ),
      )
