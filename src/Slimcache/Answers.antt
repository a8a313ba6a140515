-- ===== src/Slimcache/Answers.antt =====
-- server/slimcache/data/process.c: what the requests answer, one after another.
use pelikan.Common.{
  ℕ, zero, suc, ◌+◌, ◌≤◌, ◌<◌, ◌%◌, arith, ◌≡◌, ◌≢◌, refl, sym, ap, ap₂, subst, ◌∙◌, inl, inr, Bool,
  true, false, not, Option, none, some, List, [], ◌∷◌, ◌++◌, if◌then◌else◌, length, ◌==◌, ==_gt,
}
use mathlib.Core.Bool.{true≢false}
use mathlib.Core.Option.{none-ne-some}
use pelikan.Common.Words.{u64_mod}
use pelikan.Common.Memory.{Bytes}
use pelikan.Common.Int.{ℤ}
use pelikan.Time.{Clock}
use pelikan.Cuckoo
use pelikan.Cuckoo.{Table, vlen, hit}
use pelikan.Cuckoo.Chunk.{Config, Item, item_overhead, item_val, item_cas, item_cas_valid, next_cas}
use pelikan.Cuckoo.Keys.{klen_of_key, hit_key}
use pelikan.Cuckoo.Placed.{Placed, Option-cases, get_iff}
use pelikan.Cuckoo.Insert.{Fits, IsAlive}
use pelikan.Cuckoo.Inserted.{get-insert}
use pelikan.Cuckoo.Updated.{get-update}
use pelikan.Slimcache.{
  Server, Response, value, end, stored, get_value, expiry_of, table_get, process_get, process_gets,
  gets_reply, get_key, reply, process_set, process_cas, cas_at, exists, set_at, add_item,
  rewrite_item, update_answer, insert_answer,
}

-- A single key that is stored is answered with its value.
get_found :
    (sv : Server) (c : Clock) (t : Table) (left : ℕ) (key : Bytes) (o : ℕ)
    → table_get sv c t key ≡ some o
    → process_get sv c t (suc left) (key ∷ [])
      ≡ value false key (item_cas sv.config (t.ds o)) (item_val sv.config (t.ds o)) ∷ end ∷ []
unfolding process_get get_key reply
get_found sv c t left key o e = rw e

gets_found :
    (sv : Server) (c : Clock) (t : Table) (left : ℕ) (key : Bytes) (o : ℕ)
    → table_get sv c t key ≡ some o
    → process_gets sv c t (suc left) (key ∷ [])
      ≡ some (value true key (item_cas sv.config (t.ds o)) (item_val sv.config (t.ds o)) ∷ end ∷ [])
unfolding process_gets get_key gets_reply
gets_found sv c t left key o e = rw e

-- The responses for the keys that are stored, in the order of the keys.
abbrev pub found_values : Server → Clock → Table → Bool → List Bytes → List Response
found_values sv c t with_cas [] = []
found_values sv c t with_cas (key ∷ keys) =
    let rest = found_values sv c t with_cas keys in
    reply (get_key sv c t with_cas key (table_get sv c t key)) rest rest

-- With a response for each key and one for the end, a get answers the values of the keys that are
-- stored, in the order of the keys, and then END.
pub process_get_lem :
    (sv : Server) (c : Clock) (t : Table) (left : ℕ) (keys : List Bytes)
    → length keys ≤ left
    → process_get sv c t left keys ≡ found_values sv c t false keys ++ (end ∷ [])
unfolding process_get reply
process_get_lem sv c t left [] h = refl
process_get_lem sv c t zero (key ∷ keys) h = absurd (omega arith)
process_get_lem sv c t (suc left) (key ∷ keys) h =
    elim (Option-cases (get_key sv c t false key (table_get sv c t key))) [
      | inl e ↦ rw e (process_get_lem sv c t (suc left) keys (omega arith))
      | inr (r, e) ↦ rw e (ap (λ rs. r ∷ rs) (process_get_lem sv c t left keys (omega arith)))
    ]

update_answer-true : (r : Bool × Table) → r.0 ≡ true → update_answer r ≡ (stored, r.1)
unfolding update_answer
update_answer-true (true, t) e = refl
update_answer-true (false, t) e = absurd (true≢false (sym e))

insert_answer-some : (r : Option ℕ × Table) (o : ℕ) → r.0 ≡ some o → insert_answer r ≡ (stored, r.1)
unfolding insert_answer
insert_answer-some (some p, t) o e = refl
insert_answer-some (none, t) o e = absurd (none-ne-some o e)

refuses_token :
    (cfg : Config) (it : Item) (token : ℕ)
    → cfg.cas_enabled ≡ true
    → token < item_cas cfg it
    → item_cas_valid cfg it token ≡ false
unfolding item_cas_valid
refuses_token cfg it token e h =
    ap (λ b. if not b then true else if item_cas cfg it == token then true else false) e
    ∙ ap (λ b. if b then true else false) (==_gt (item_cas cfg it) token h)

next_of_enabled :
    (cfg : Config) (cas_val : ℕ)
    → cfg.cas_enabled ≡ true
    → (if cfg.cas_enabled then next_cas cfg cas_val else 1) ≡ (cas_val + 1) % u64_mod
unfolding next_cas
next_of_enabled cfg cas_val e =
    ap (λ b. if b then (if b then (cas_val + 1) % u64_mod else cas_val) else 1) e

module _ (sv : Server) (c : Clock) (random : ℕ → ℕ) (t : Table) (key str : Bytes) (expiry : ℤ)
    (inv : Placed sv.config sv.murmur3 c t.ds) (fits : Fits sv.config key (get_value sv str))
    (alive : IsAlive sv.config c (expiry_of sv c expiry)) where
  abbrev next : ℕ
  next = if sv.config.cas_enabled then next_cas sv.config t.cas_val else 1

  -- what both ways to store an item leave
  abbrev Holds : Response × Table → Type 0
  Holds (r, u) =
      (r ≡ stored)
      × ((o : ℕ) × (table_get sv c u key ≡ some o)
          × (item_val sv.config (u.ds o) ≡ get_value sv str)
          × (item_cas sv.config (u.ds o) ≡ next))

  update-Holds : (o : ℕ) → table_get sv c t key ≡ some o → Holds (rewrite_item sv c t str expiry o)
  unfolding rewrite_item table_get
  update-Holds o e =
      let (r, g, v, x, n, w) =
        get-update sv.config sv.murmur3 c t key inv o (get_value sv str) (expiry_of sv c expiry) e
          fits.storable room (0 ∷ key) longer alive in
      subst Holds
        (sym (
          update_answer-true
            (Cuckoo.update sv.config c t o (get_value sv str) (expiry_of sv c expiry)) r))
        (refl, (o, g, v, n))
    where
      longer : (0 ∷ key) ≢ key
      longer q = absurd (omega (arith, ap length q))

      there : hit sv.config c (t.ds o) key ≡ true
      there = (get_iff sv.config sv.murmur3 c t key o inv).0 e

      room : (t.ds o).klen + vlen (get_value sv str) + item_overhead sv.config ≤ sv.config.item_size
      room = omega (
        arith,
        fits.room,
        klen_of_key sv.config c (t.ds o) key (inv.keyed o) (hit_key sv.config c (t.ds o) key there),
      )

  insert-Holds : table_get sv c t key ≡ none → Holds (add_item sv c random t key str expiry)
  unfolding add_item table_get
  insert-Holds e =
      let (o, r, g, v, x, n) =
        get-insert sv.config sv.murmur3 c random t key (get_value sv str) (expiry_of sv c expiry)
          inv fits e alive in
      subst Holds
        (sym (
          insert_answer-some
            (Cuckoo.insert sv.config sv.murmur3 c random t key (get_value sv str)
              (expiry_of sv c expiry))
            o r))
        (refl, (o, g, v, n))

  set-Holds : Holds (process_set sv c random t key str expiry)
  unfolding process_set set_at
  set-Holds = elim (Option-cases (table_get sv c t key)) [
    | inl e ↦ rw e (insert-Holds e)
    | inr (o, e) ↦ rw e (update-Holds o e)
  ]

  -- On a table that satisfies the invariant, a set of a value that fits the chunk with the key, a
  -- number below 2^64 or a text that is not empty and shorter than 256 bytes, under a key shorter than
  -- 256 bytes, and whose time of expiry, capped, is not before the current second, is answered STORED,
  -- whether the key was stored or not; the next get or gets of the key, with a response left for its
  -- end, answers the value, a number where the text is one, in gets with the next cas.
  pub get-set :
      (left : ℕ)
      → ((process_set sv c random t key str expiry).0 ≡ stored)
        × (process_get sv c (process_set sv c random t key str expiry).1 (suc left) (key ∷ [])
            ≡ value false key next (get_value sv str) ∷ end ∷ [])
        × (process_gets sv c (process_set sv c random t key str expiry).1 (suc left) (key ∷ [])
            ≡ some (value true key next (get_value sv str) ∷ end ∷ []))
  get-set left =
      let (r, (o, g, v, n)) = set-Holds in
      (
        r,
        get_found sv c (process_set sv c random t key str expiry).1 left key o g
            ∙ ap₂ (λ x y. value false key x y ∷ end ∷ []) n v,
        gets_found sv c (process_set sv c random t key str expiry).1 left key o g
            ∙ ap₂ (λ x y. some (value true key x y ∷ end ∷ [])) n v,
      )

  -- On a table that satisfies the invariant and where cas is enabled, a token that was read before a
  -- set is stale after it, where the value of the set fits the chunk with the key, is a number below
  -- 2^64 or a text that is not empty and shorter than 256 bytes, the key is shorter than 256 bytes, and
  -- the time of expiry of the set, capped, is not before the current second: the cas request is answered EXISTS and changes nothing, as
  -- long as the counter of 64 bits has not wrapped around.
  pub cas-set_stale :
      (other : Bytes) (later : ℤ) (token : ℕ)
      → sv.config.cas_enabled ≡ true
      → token ≤ t.cas_val
      → t.cas_val + 1 < u64_mod
      → process_cas sv c (process_set sv c random t key str expiry).1 key other later token
        ≡ (exists, (process_set sv c random t key str expiry).1)
  unfolding process_cas cas_at
  cas-set_stale other later token enabled old small =
      let (r, (o, g, v, n)) = set-Holds in rw (g, stale o n) refl
    where
      stale :
          (o : ℕ)
          → item_cas sv.config ((process_set sv c random t key str expiry).1.ds o) ≡ next
          → item_cas_valid sv.config ((process_set sv c random t key str expiry).1.ds o) token
            ≡ false
      stale o n =
          refuses_token sv.config _ token enabled
            (omega (arith, n ∙ next_of_enabled sv.config t.cas_val enabled, old, small))
