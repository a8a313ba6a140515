-- ===== src/Slimcache.antt =====
-- server/slimcache/data/process.c: the requests of the memcache protocol on the cuckoo table. Metrics
-- and the sampling of hot keys are left out. The reader of decimal numbers, `bstring_atou64`, is a
-- parameter.
pub mod Safe
pub mod Requests
pub mod Reachable
pub mod Answers
pub mod Counters
mod Tests
use pelikan.Common.{
  ℕ, zero, suc, ◌+◌, ◌-◌, ◌%◌, Bool, true, false, not, Option, none, some, List, [], ◌∷◌, ltb,
  if◌then◌else◌,
}
use pelikan.Common.Words.{u64_mod}
use pelikan.Common.Memory.{Bytes}
use pelikan.Common.Int.{ℤ}
use pelikan.Time
use pelikan.Time.{Clock, TimeType}
use pelikan.Cuckoo
use pelikan.Cuckoo.{Table, put}
use pelikan.Cuckoo.Chunk.{
  Config, Item, Val, vint, vstr, item_cas, item_cas_valid, item_val, is_int, item_value_int,
  item_value_update,
}
use pelikan.Cuckoo.Candidates.{Hash}

-- The options, and the code that is not part of the program.
pub record Server : Type 0 where
  pub config : Config
  pub time_type : TimeType
  pub allow_flush : Bool
  pub murmur3 : Hash
  pub atou64 : Bytes → Option ℕ

pub data Response : Type 0 where
  ok end stored exists deleted not_found not_stored client_error : Response
  value : (cas : Bool) (key : Bytes) (vcas : ℕ) (val : Val) → Response
  numeric : ℕ → Response

pub data Request : Type 0 where
  get gets : List Bytes → Request
  delete : (key : Bytes) → Request
  set add replace : (key str : Bytes) (expiry : ℤ) → Request
  cas : (key str : Bytes) (expiry : ℤ) (vcas : ℕ) → Request
  incr decr : (key : Bytes) (delta : ℕ) → Request
  flush : Request
  unknown : Request

-- A number where the text is one.
unfoldable pub value_of : Bytes → Option ℕ → Val
value_of str (some n) = vint n
value_of str none = vstr str

unfoldable pub get_value : Server → Bytes → Val
get_value sv str = value_of str (sv.atou64 str)

unfoldable pub expiry_of : Server → Clock → ℤ → ℤ
expiry_of sv c expiry = Time.convert_proc_sec sv.time_type c expiry

unfoldable pub table_get : Server → Clock → Table → Bytes → Option ℕ
table_get sv c t key = Cuckoo.get sv.config sv.murmur3 c t key

-- The answers to what `cuckoo_update` and `cuckoo_insert` return.
unfoldable pub update_answer : Bool × Table → Response × Table
update_answer (true, t) = (stored, t)
update_answer (false, t) = (client_error, t)

unfoldable pub insert_answer : Option ℕ × Table → Response × Table
insert_answer (some o, t) = (stored, t)
insert_answer (none, t) = (client_error, t)

-- The response for a key, where it is found, before those for the keys behind it.
unfoldable pub reply : Option Response → List Response → List Response → List Response
reply none missed found = missed
reply (some r) missed found = r ∷ found

-- The same for gets, where `none` stands for a crash: what follows the last response is a null pointer,
-- which is written to in any case.
unfoldable pub gets_reply :
    Option Response → Option (List Response) → Option (List Response) → Option (List Response)
gets_reply none missed found = missed
gets_reply (some r) missed none = none
gets_reply (some r) missed (some rs) = some (r ∷ rs)

abbrev pub single : Response × Table → Option (List Response) × Table
single (r, t) = (some (r ∷ []), t)

module _ (sv : Server) (c : Clock) where
  unfoldable pub get_key : Table → Bool → Bytes → Option ℕ → Option Response
  get_key t with_cas key none = none
  get_key t with_cas key (some o) =
      some (value with_cas key (item_cas sv.config (t.ds o)) (item_val sv.config (t.ds o)))

  -- The keys one after another; the number counts the responses that are left behind the current one.
  unfoldable pub process_get : Table → ℕ → List Bytes → List Response
  process_get t left [] = end ∷ []
  process_get t zero (key ∷ keys) =
      let missed = process_get t zero keys in
      reply (get_key t false key (table_get sv c t key)) missed []
  process_get t (suc left) (key ∷ keys) =
      let missed = process_get t (suc left) keys in
      let found = process_get t left keys in
      reply (get_key t false key (table_get sv c t key)) missed found

  -- A key that is found takes the next response, also where there is none.
  unfoldable pub process_gets : Table → ℕ → List Bytes → Option (List Response)
  process_gets t left [] = some (end ∷ [])
  process_gets t zero (key ∷ keys) =
      let missed = process_gets t zero keys in
      gets_reply (get_key t true key (table_get sv c t key)) missed none
  process_gets t (suc left) (key ∷ keys) =
      let missed = process_gets t (suc left) keys in
      let found = process_gets t left keys in
      gets_reply (get_key t true key (table_get sv c t key)) missed found

  unfoldable pub delete_answer : Bool × Table → Response × Table
  delete_answer (true, t) = (deleted, t)
  delete_answer (false, t) = (not_found, t)

  unfoldable pub process_delete : Table → Bytes → Response × Table
  process_delete t key = delete_answer (Cuckoo.delete sv.config sv.murmur3 c t key)

  -- The item in a slot is updated, a new one inserted.
  unfoldable pub rewrite_item : Table → Bytes → ℤ → ℕ → Response × Table
  rewrite_item t str expiry o =
      update_answer (Cuckoo.update sv.config c t o (get_value sv str) (expiry_of sv c expiry))

  unfoldable pub add_item : (ℕ → ℕ) → Table → Bytes → Bytes → ℤ → Response × Table
  add_item random t key str expiry =
      insert_answer (
        Cuckoo.insert sv.config sv.murmur3 c random t key (get_value sv str)
          (expiry_of sv c expiry))

  -- Each request, from the answer of the lookup.
  unfoldable pub set_at : (ℕ → ℕ) → Table → Bytes → Bytes → ℤ → Option ℕ → Response × Table
  set_at random t key str expiry (some o) = rewrite_item t str expiry o
  set_at random t key str expiry none = add_item random t key str expiry

  unfoldable pub process_set : (ℕ → ℕ) → Table → Bytes → Bytes → ℤ → Response × Table
  process_set random t key str expiry = set_at random t key str expiry (table_get sv c t key)

  unfoldable pub add_at : (ℕ → ℕ) → Table → Bytes → Bytes → ℤ → Option ℕ → Response × Table
  add_at random t key str expiry (some o) = (not_stored, t)
  add_at random t key str expiry none = add_item random t key str expiry

  unfoldable pub process_add : (ℕ → ℕ) → Table → Bytes → Bytes → ℤ → Response × Table
  process_add random t key str expiry = add_at random t key str expiry (table_get sv c t key)

  unfoldable pub replace_at : Table → Bytes → ℤ → Option ℕ → Response × Table
  replace_at t str expiry (some o) = rewrite_item t str expiry o
  replace_at t str expiry none = (not_stored, t)

  unfoldable pub process_replace : Table → Bytes → Bytes → ℤ → Response × Table
  process_replace t key str expiry = replace_at t str expiry (table_get sv c t key)

  unfoldable pub cas_at : Table → Bytes → ℤ → ℕ → Option ℕ → Response × Table
  cas_at t str expiry vcas (some o) =
      if item_cas_valid sv.config (t.ds o) vcas then rewrite_item t str expiry o else (exists, t)
  cas_at t str expiry vcas none = (not_found, t)

  unfoldable pub process_cas : Table → Bytes → Bytes → ℤ → ℕ → Response × Table
  process_cas t key str expiry vcas = cas_at t str expiry vcas (table_get sv c t key)

  -- A new number is written over the value of the item in a slot.
  unfoldable pub write_number : Table → ℕ → ℕ → Response × Table
  write_number t o n =
      let (stamp, it) = item_value_update sv.config t.cas_val (t.ds o) (vint n) in
      (numeric n, record { ds = put t.ds o it; cas_val = stamp })

  unfoldable pub count_at : Table → (ℕ → ℕ) → Option ℕ → Response × Table
  count_at t f none = (not_found, t)
  count_at t f (some o) =
      if not (is_int (t.ds o))
      then (client_error, t)
      else write_number t o (f (item_value_int sv.config (t.ds o)))

  unfoldable pub process_incr : Table → Bytes → ℕ → Response × Table
  process_incr t key delta = count_at t (λ v. (v + delta) % u64_mod) (table_get sv c t key)

  unfoldable pub process_decr : Table → Bytes → ℕ → Response × Table
  process_decr t key delta =
      count_at t (λ v. if ltb v delta then 0 else v - delta) (table_get sv c t key)

  unfoldable pub process_flush : Table → Response × Table
  process_flush t = if sv.allow_flush then (ok, Cuckoo.reset sv.config t) else (client_error, t)

  -- The responses, `none` where the process crashes, and the table; the first number counts the
  -- responses behind the first one.
  unfoldable pub process_request : ℕ → (ℕ → ℕ) → Table → Request → Option (List Response) × Table
  process_request left random t (get keys) = (some (process_get t left keys), t)
  process_request left random t (gets keys) = (process_gets t left keys, t)
  process_request left random t (delete key) = single (process_delete t key)
  process_request left random t (set key str expiry) = single (process_set random t key str expiry)
  process_request left random t (add key str expiry) = single (process_add random t key str expiry)
  process_request left random t (replace key str expiry) = single (process_replace t key str expiry)
  process_request left random t (cas key str expiry vcas) =
      single (process_cas t key str expiry vcas)
  process_request left random t (incr key delta) = single (process_incr t key delta)
  process_request left random t (decr key delta) = single (process_decr t key delta)
  process_request left random t flush = single (process_flush t)
  process_request left random t unknown = (some (client_error ∷ []), t)
