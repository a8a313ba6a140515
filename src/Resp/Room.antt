-- ===== src/Resp/Room.antt =====
-- A buffer that keeps the laws of the buffer library, and a request of it, for the tests.
use pelikan.Resp.Verbs.{ComparesBytes}
use pelikan.Common.{
  ℕ, ◌+◌, ◌-◌, ◌≤◌, refl, some, arith, List, ◌≡◌, [], ◌∷◌, ◌++◌, length, take, take_all, ap, subst,
  true,
}
use pelikan.Common.Memory.{Bytes, bytes_eq, bytes_eq_sound, bytes_eq-same}
use pelikan.Common.Int.{ℤ, pos, negsuc}
use pelikan.Resp.{Element, elem_bulk, parse_ok}
use pelikan.Resp.Commands.{
  Command, request_setup, command_table, set_nopt, is_varied, req_bitmap, req_hash, req_list,
  req_sarray, req_smap, req_zset, req_misc,
}
use pelikan.Resp.Message.{Strings}
use pelikan.Resp.Elements.{AllSendable}
use pelikan.Resp.Request.{bstr_of, find_command, check_narg, parse_cmd}
use pelikan.Resp.Accepts.{array_of}
use pelikan.Resp.Buffer.{BufferOps, BufferLaws}

-- A buffer as its contents and the room that is left; doubling always succeeds. Integers below 10
-- are printed.
abbrev pub Room : Type 0
Room = Bytes × ℕ

abbrev pub print_small : ℤ → Bytes
print_small (pos n) = (48 + n) ∷ []
print_small (negsuc n) = 45 ∷ (49 + n) ∷ []

abbrev pub ops : BufferOps Room
ops = record {
  wsize = λ b. b.1;
  double = λ b. some (b.0, b.1 + b.1 + 1);
  write = λ b bs. ((b.0 ++ take b.1 bs, b.1 - length bs), length (take b.1 bs));
  put = λ b bs. (b.0 ++ bs, b.1 - length bs);
  print_int = print_small;
  int64_maxlen = 22;
}

abbrev pub laws : BufferLaws ops
laws = record {
  contents = λ b. b.0;
  contents-double = λ b b' e. ground arith;
  wsize-double = λ b b' e. ground arith;
  contents-write = λ b bs h. ap (λ t. b.0 ++ t) (take_all b.1 bs h);
  wsize-write = λ b bs h. omega arith;
  count-write = λ b bs h. ap length (take_all b.1 bs h);
  contents-put = λ b bs h. refl;
  wsize-put = λ b bs h. omega arith;
  int64_maxlen-small = omega arith;
  length-print_int = short;
}
  where
    short : (z : ℤ) → length (print_small z) ≤ 22
    short (pos n) = omega arith
    short (negsuc n) = omega arith

-- Strings are compared byte by byte.
abbrev pub by_bytes : Strings
by_bytes = record { bstring_equal = bytes_eq; other_bstr = λ el. [] }

abbrev pub limited : List Command
limited = request_setup 127

abbrev pub ping : Element
ping = elem_bulk (112 ∷ 105 ∷ 110 ∷ 103 ∷ [])

pub ping_runs : parse_cmd by_bytes limited (array_of ping []) ≡ (parse_ok, 67)
unfolding parse_cmd find_command check_narg bytes_eq bstr_of request_setup command_table set_nopt
    is_varied req_bitmap req_hash req_list req_sarray req_smap req_zset req_misc
ping_runs = refl

pub ping-AllSendable : AllSendable print_small (array_of ping [])
ping-AllSendable = (
  (omega arith, (omega arith, (omega arith, omega arith, tt), refl)),
  ((omega arith, (omega arith, (omega arith, omega arith, tt), refl)), tt),
)

-- The last command of the table.
quit_runs :
    parse_cmd by_bytes limited (array_of (elem_bulk (113 ∷ 117 ∷ 105 ∷ 116 ∷ [])) [])
    ≡ (parse_ok, 68)
unfolding parse_cmd find_command check_narg bytes_eq bstr_of request_setup command_table set_nopt
    is_varied req_bitmap req_hash req_list req_sarray req_smap req_zset req_misc
quit_runs = refl

pub by_bytes-ComparesBytes : ComparesBytes by_bytes
by_bytes-ComparesBytes a b =
    (bytes_eq_sound a b, λ e. subst (λ c. bytes_eq a c ≡ true) e (bytes_eq-same a))
