-- ===== src/Rds/Unending.antt =====
-- The loop of `rds_process_read` on bytes that are no request.
use pelikan.Common.{
  arith, subst, sym, ℕ, zero, suc, ◌≡◌, refl, ap, ◌∙◌, Option, none, some, [], List, ◌∷◌, ◌++◌,
  true, ◌<◌, ◌^◌, ◌+◌, length,
}
use pelikan.Common.Memory.{Bytes}
use pelikan.Common.Int.{ℤ, pos}
use pelikan.Resp.{
  Element, elem_err, parse_ok, ComposeStatus, compose_ok, enomem, compose_eunfin, compose_einvalid,
  compose_eother,
}
use pelikan.Resp.Wire.{wire}
use pelikan.Resp.Buffer.{BufferLaws}
use pelikan.Resp.Elements.{ComposedAll, compose_tokens_lem, wires, positive}
use pelikan.Resp.Response.{compose_rsp}
use pelikan.Resp.RoundTrip.{Sendable}
use pelikan.Resp.Request.{request_reset, parse_req}
use pelikan.Resp.Response.{response_reset}
use pelikan.Resp.Refusals.{NoRequest, parse_req_stuck}
use pelikan.Rds.{
  proceed, rsp_err_nosupport, Server, Round, next, done, error, round, round_of, respond,
  after_compose, process_request, process_loop, rds_process_read,
}

module _ {S B : Type 0} (sv : Server S B) (laws : BufferLaws sv.ops) where
  -- No end but with an error, and a buffer of responses that cannot be doubled.
  abbrev pub Unended : Option (Round × S × Bytes × B) → Type 0
  Unended none = Unit
  Unended (some (done, s, rbuf, w)) = ⊥
  Unended (some (next, s, rbuf, w)) = ⊥
  Unended (some (error, s, rbuf, w)) = sv.ops.double w ≡ none

  Unended-compose :
      (loop : S → Bytes → B → Option (Round × S × Bytes × B)) (s : S) (rbuf : Bytes)
      (r : ComposeStatus × ℤ × B) (w : B) (token : List Element)
      → ((b : B) → Unended (loop s rbuf b))
      → length (wires sv.ops.print_int token) < 2 ^ 31
      → ComposedAll laws (pos 0) w token r
      → Unended (proceed sv loop (after_compose sv s rbuf r))
  Unended-compose loop s rbuf (compose_ok, n, b) w token h short k =
      rw (k.1 0 refl (omega (arith, short)), positive (0 + length (wires sv.ops.print_int token)))
        (h b)
  Unended-compose loop s rbuf (enomem, n, b) w token h short k = rw k.1 k.0
  Unended-compose loop s rbuf (compose_eunfin, n, b) w token h short k = absurd k
  Unended-compose loop s rbuf (compose_einvalid, n, b) w token h short k = absurd k
  Unended-compose loop s rbuf (compose_eother, n, b) w token h short k = absurd k

  process_stuck :
      (s : S)
      → sv.command_registry 0 ≡ none
      → process_request sv s response_reset request_reset
        ≡ (record response_reset { type = 2; token = elem_err rsp_err_nosupport ∷ [] }, s)
  unfolding process_request request_reset response_reset
  process_stuck s no_func = rw (process_request, no_func) refl

  -- The request is given back and the reply says that the command is not supported.
  round_stuck :
      (s : S) (rbuf : Bytes) (w : B)
      → sv.command_registry 0 ≡ none
      → parse_req sv.strings sv.command_table request_reset rbuf ≡ (parse_ok, request_reset, rbuf)
      → round sv s rbuf w
        ≡ respond sv w rbuf
            (record response_reset { type = 2; token = elem_err rsp_err_nosupport ∷ [] }, s)
  unfolding round round_of process_request request_reset response_reset
  round_stuck s rbuf w no_func e =
      ap (round_of sv s w) e ∙ ap (respond sv w rbuf) (process_stuck s no_func)

  process_loop_stuck :
      (fuel : ℕ) (s : S) (rbuf : Bytes) (w : B)
      → sv.command_registry 0 ≡ none
      → parse_req sv.strings sv.command_table request_reset rbuf ≡ (parse_ok, request_reset, rbuf)
      → Unended (process_loop sv fuel s rbuf w)
  unfolding process_loop parse_req compose_rsp
  process_loop_stuck zero s rbuf w no_func e = tt
  process_loop_stuck (suc fuel) s [] w no_func e = ground (arith, e)
  process_loop_stuck (suc fuel) s (c ∷ cs) w no_func e =
      subst (λ r. Unended (proceed sv (λ s' rbuf w'. process_loop sv fuel s' rbuf w') r))
        (sym (round_stuck s (c ∷ cs) w no_func e))
        (Unended-compose (λ s' rbuf w'. process_loop sv fuel s' rbuf w') s (c ∷ cs) _ w
          (elem_err rsp_err_nosupport ∷ []) (λ b. process_loop_stuck fuel s (c ∷ cs) b no_func e)
          (omega arith)
          (compose_tokens_lem laws (pos 0) w (elem_err rsp_err_nosupport ∷ []) (omega arith, tt)))

  -- Where the buffer library keeps its laws, no function stands for REQ_UNKNOWN, and the bytes start
  -- with an element that fits the format and is no attribute and no array of one element at least:
  -- however many rounds it is given, the loop of `rds_process_read` never ends but with an error and a
  -- buffer of responses that cannot be doubled.
  pub rds_process_read_stuck :
      (print : ℤ → Bytes) (fuel : ℕ) (s : S) (el : Element) (rest : Bytes) (w : B)
      → sv.command_registry 0 ≡ none
      → Sendable print el
      → NoRequest sv.strings sv.command_table el
      → Unended (rds_process_read sv true fuel s (wire print el ++ rest) w)
  unfolding rds_process_read
  rds_process_read_stuck print fuel s el rest w no_func h n =
      process_loop_stuck fuel s (wire print el ++ rest) w no_func
        (parse_req_stuck sv.strings sv.command_table print request_reset el rest h n)
