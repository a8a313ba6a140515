-- ===== src/Resp/Tests.antt =====
-- The theorems about RESP elements at a concrete buffer, and a run of the parser.
use pelikan.Time.{to_i32, as_signed, to_u32}
use pelikan.Resp.Commands.{Command, cmd_init, req_misc}
use pelikan.Resp.Meaning.{attribs_after}
use pelikan.Resp.Verbs.{IsNamed}
use pelikan.Common.{◌≡◌, refl, some, arith, List, false, [], ◌∷◌, ◌++◌}
use pelikan.Common.Memory.{Bytes, bytes_eq}
use pelikan.Common.Int.{pos, wrap64}
use pelikan.Resp.{
  Element, elem_str, elem_array, elem_int, elem_bulk, parse_ok, compose_ok, crlf, int64_min,
  parse_element, read_int, read_digits, is_digit, line_end,
}
use pelikan.Resp.Room.{
  print_small, ops, laws, by_bytes, limited, ping, ping_runs, ping-AllSendable,
  by_bytes-ComparesBytes,
}
use pelikan.Resp.Compose.{
  compose_element, check_buf_size, check_from, estimate, write_element, tagged_int, tagged_bstr,
  writeln_int, writeln_bstr,
}
use pelikan.Resp.Wire.{wire, Composed, compose_element_lem}
use pelikan.Resp.RoundTrip.{parse_element-wire}
use pelikan.Resp.Message.{
  ttl_str, attribs_reset, parse_attrib, lookup_attrib_key, find_attrib, set_attrib,
}
use pelikan.Resp.Elements.{wires}
use pelikan.Resp.Attributes.{attribs_wire, SendablePairs, apply_attribs}
use pelikan.Resp.Request.{Request, compose_req, compose_tokens, request_reset, parse_req}
use pelikan.Resp.Response.{Response}
use pelikan.Resp.Accepts.{array_of, parse_req-wires}
use pelikan.Resp.Refusals.{parse_req_stuck}
use pelikan.Resp.Exchange.{parse_req-compose_req}

abbrev hello : Element
hello = elem_bulk (104 ∷ 105 ∷ [])

compose_example : Composed laws (9 ∷ [], 1) hello (compose_element ops (9 ∷ [], 1) hello)
compose_example = compose_element_lem laws (9 ∷ [], 1) hello (omega arith)

parse_example : parse_element (wire print_small hello ++ (7 ∷ [])) ≡ (parse_ok, some hello, 7 ∷ [])
parse_example =
    parse_element-wire print_small hello (7 ∷ [])
      (omega arith, (omega arith, (omega arith, omega arith, tt), refl))

-- ":9223372036854775808", one more than INT64_MAX, is read as INT64_MIN.
abbrev too_large : Bytes
too_large =
    58 ∷ 57 ∷ 50 ∷ 50 ∷ 51 ∷ 51 ∷ 55 ∷ 50 ∷ 48 ∷ 51 ∷ 54 ∷ 56 ∷ 53 ∷ 52 ∷ 55 ∷ 55 ∷ 53 ∷ 56 ∷ 48
    ∷ 56 ∷ crlf

overflow_runs : parse_element too_large ≡ (parse_ok, some (elem_int int64_min), [])
unfolding parse_element read_int read_digits wrap64 is_digit line_end
overflow_runs = refl

abbrev ttl_5 : List (Element × Element)
ttl_5 = (elem_str ttl_str, elem_int (pos 5)) ∷ []

ttl_runs : apply_attribs by_bytes attribs_reset ttl_5 ≡ record attribs_reset { ttl = pos 5 }
unfolding parse_attrib lookup_attrib_key find_attrib set_attrib bytes_eq
ttl_runs = refl

ttl_5-SendablePairs : SendablePairs print_small ttl_5
unfolding line_end
ttl_5-SendablePairs = (
  (omega arith, omega arith, (omega arith, (omega arith, omega arith, tt), refl)),
  (
    ((refl, (refl, (refl, tt))), omega arith),
    (omega arith, (omega arith, (omega arith, omega arith, tt), refl)),
    tt,
  ),
)

abbrev ping_command : Command
ping_command = cmd_init (112 ∷ 105 ∷ 110 ∷ 103 ∷ []) (pos 1) (pos 1)

ping-IsNamed : IsNamed req_misc 1 ping_command (112 ∷ 105 ∷ 110 ∷ 103 ∷ [])
unfolding req_misc
ping-IsNamed = (λ e. ground (arith, e), (refl, refl))

fresh : request_reset.token ≡ []
unfolding request_reset
fresh = refl

parse_req_example :
    parse_req by_bytes req_misc request_reset
      (attribs_wire print_small ttl_5 ++ (wires print_small (array_of ping []) ++ (9 ∷ [])))
    ≡ (
      parse_ok,
      record request_reset {
        type = 2;
        token = array_of ping [];
        attribs = attribs_after request_reset.attribs ttl_5;
      },
      9 ∷ [],
    )
parse_req_example =
    parse_req-wires by_bytes by_bytes-ComparesBytes req_misc print_small request_reset ttl_5 ping []
      (9 ∷ []) (112 ∷ 105 ∷ 110 ∷ 103 ∷ []) 1 ping_command fresh ttl_5-SendablePairs
      ping-AllSendable refl ping-IsNamed (refl, refl)

-- "*1", "$4" and "ping", behind the first byte.
abbrev ping_bytes : Bytes
ping_bytes = 49 ∷ (crlf ++ (36 ∷ 52 ∷ (crlf ++ (112 ∷ 105 ∷ 110 ∷ 103 ∷ crlf))))

-- "*0"
parse_req_stuck_example :
    parse_req by_bytes limited request_reset (wire print_small (elem_array (pos 0)) ++ [])
    ≡ (parse_ok, request_reset, wire print_small (elem_array (pos 0)) ++ [])
parse_req_stuck_example =
    parse_req_stuck by_bytes limited print_small request_reset (elem_array (pos 0)) []
      (omega arith, (omega arith, (omega arith, omega arith, tt), refl)) tt

abbrev ping_request : Request
ping_request = record {
  noreply = false;
  serror = false;
  cerror = false;
  type = 0;
  token = array_of ping [];
  attribs = attribs_reset;
}

abbrev ping_response : Response
ping_response = record {
  serror = false;
  type = 4;
  nil = false;
  token = ping ∷ [];
  attribs = attribs_reset;
}

ping_composes :
    compose_req ops ([], 1) ping_request
    ≡ (compose_ok, pos 14, (wires print_small (array_of ping []), 45))
unfolding compose_req compose_tokens compose_element check_buf_size check_from estimate
    write_element tagged_int tagged_bstr writeln_int writeln_bstr to_i32 as_signed to_u32
ping_composes = refl

parse_req-compose_req_example :
    parse_req by_bytes limited request_reset
      (laws.contents (wires print_small (array_of ping []), 45))
    ≡ (parse_ok, record request_reset { type = 67; token = ping_request.token }, [])
parse_req-compose_req_example =
    parse_req-compose_req laws by_bytes limited ping_request ping [] ([], 1)
      (wires print_small (array_of ping []), 45) (pos 14) 67 refl refl ping-AllSendable ping_runs
      ping_composes
