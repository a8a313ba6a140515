-- ===== src/Rds/Batch.antt =====
-- The loop of `rds_process_read` on requests that stand one behind the other.
use pelikan.Common.{
  subst, sym, ℕ, suc, ◌≡◌, refl, ap, ◌∙◌, Option, none, some, List, [], ◌∷◌, ◌++◌, append_assoc,
  length, true, false, ◌==◌, ◌<◌, ◌^◌, ◌+◌, arith,
}
use mathlib.Core.List.{append-nil}
use pelikan.Common.Memory.{Bytes}
use pelikan.Common.Int.{ℤ, pos}
use pelikan.Resp.{
  Element, parse_ok, ComposeStatus, compose_ok, enomem, compose_eunfin, compose_einvalid,
  compose_eother,
}
use pelikan.Resp.Buffer.{BufferLaws}
use pelikan.Resp.Wire.{wire}
use pelikan.Resp.Elements.{
  wires, AllSendable, ComposedAll, compose_tokens_lem, AllWritable, positive,
}
use pelikan.Resp.Request.{Request, request_reset, parse_cmd}
use pelikan.Resp.Response.{Response, response_reset, compose_rsp}
use pelikan.Resp.Accepts.{array_of, parse_req-message}
use pelikan.Rds.{
  Server, Round, next, done, error, proceed, round, round_of, respond, after_compose,
  process_request, process_loop, rds_process_read, req_quit,
}

wires-append :
    (print : ℤ → Bytes) (xs ys : List Element)
    → wires print (xs ++ ys) ≡ wires print xs ++ wires print ys
wires-append print [] ys = refl
wires-append print (x ∷ xs) ys =
    ap (λ t. wire print x ++ t) (wires-append print xs ys)
    ∙ sym (append_assoc (wire print x) (wires print xs) (wires print ys))

module _ {S B : Type 0} (sv : Server S B) (laws : BufferLaws sv.ops) where
  abbrev pub batch_wire : List (Element × List Element) → Bytes
  batch_wire [] = []
  batch_wire ((el, els) ∷ ms) = wires sv.ops.print_int (array_of el els) ++ batch_wire ms

  abbrev type_of : Element → List Element → ℕ
  type_of el els = (parse_cmd sv.strings sv.command_table (array_of el els)).1

  abbrev request_of : Element → List Element → Request
  request_of el els = record request_reset { type = type_of el els; token = array_of el els }

  abbrev pub answer_of : S → Element → List Element → Response × S
  answer_of s el els = process_request sv s response_reset (request_of el els)

  -- A response whose bytes an `int` counts.
  abbrev pub IsShort : List Element → Type 0
  IsShort token = AllWritable token × (length (wires sv.ops.print_int token) < 2 ^ 31)

  -- Requests that fit the format, of commands of the table other than "quit", whose responses from a
  -- state on are short.
  abbrev pub IsBatch : S → List (Element × List Element) → Type 0
  IsBatch s [] = Unit
  IsBatch s ((el, els) ∷ ms) =
      AllSendable sv.ops.print_int (array_of el els)
      × ((parse_cmd sv.strings sv.command_table (array_of el els)).0 ≡ parse_ok)
      × ((type_of el els == req_quit) ≡ false)
      × IsShort (answer_of s el els).0.token
      × IsBatch (answer_of s el els).1 ms

  -- The tokens of all responses, and the state behind them, where each request is processed once and
  -- in order.
  abbrev pub serve : S → List (Element × List Element) → List Element × S
  serve s [] = ([], s)
  serve s ((el, els) ∷ ms) =
      let (rsp, s') = process_request sv s response_reset (request_of el els) in
      let (token, last) = serve s' ms in (rsp.token ++ token, last)

  abbrev pub Served :
      S → B → List (Element × List Element) → Option (Round × S × Bytes × B) → Type 0
  Served s w ms none = ⊥
  Served s w ms (some (next, s', rest, w')) = ⊥
  Served s w ms (some (error, s', rest, w')) = sv.ops.double w' ≡ none
  Served s w ms (some (done, s', rest, w')) =
      (s' ≡ (serve s ms).1)
      × (rest ≡ [])
      × (laws.contents w' ≡ laws.contents w ++ wires sv.ops.print_int (serve s ms).0)

  round_request :
      (s : S) (el : Element) (els : List Element) (rest : Bytes) (w : B)
      → AllSendable sv.ops.print_int (array_of el els)
      → (parse_cmd sv.strings sv.command_table (array_of el els)).0 ≡ parse_ok
      → (type_of el els == req_quit) ≡ false
      → round sv s (wires sv.ops.print_int (array_of el els) ++ rest) w
        ≡ respond sv w rest (process_request sv s response_reset (request_of el els))
  unfolding round round_of request_reset
  round_request s el els rest w h ok plain =
      ap (round_of sv s w) (
        parse_req-message sv.strings sv.command_table sv.ops.print_int request_reset [] el els rest
          (type_of el els) tt h (ap (λ status. (status, type_of el els)) ok))
      ∙ rw plain refl

  Served-cons :
      (s : S) (w b : B) (el : Element) (els : List Element) (ms : List (Element × List Element))
      (r : Option (Round × S × Bytes × B))
      → laws.contents b ≡ laws.contents w ++ wires sv.ops.print_int (answer_of s el els).0.token
      → Served (answer_of s el els).1 b ms r
      → Served s w ((el, els) ∷ ms) r
  Served-cons s w b el els ms none e h = absurd h
  Served-cons s w b el els ms (some (next, s', rest, w')) e h = absurd h
  Served-cons s w b el els ms (some (error, s', rest, w')) e h = h
  Served-cons s w b el els ms (some (done, s', rest, w')) e h =
      let token = (answer_of s el els).0.token in
      let later = (serve (answer_of s el els).1 ms).0 in
      (
        h.0,
        h.1,
        h.2
            ∙ ap (λ t. t ++ wires sv.ops.print_int later) e
            ∙ append_assoc (laws.contents w) (wires sv.ops.print_int token)
                (wires sv.ops.print_int later)
            ∙ ap (λ t. laws.contents w ++ t) (sym (wires-append sv.ops.print_int token later)),
      )

  -- After a response the loop goes on with the rest, or the response could not be composed.
  Served-compose :
      (loop : S → Bytes → B → Option (Round × S × Bytes × B)) (s : S) (rest : Bytes) (w : B)
      (el : Element) (els : List Element) (ms : List (Element × List Element))
      (r : ComposeStatus × ℤ × B)
      → ((b : B) → Served (answer_of s el els).1 b ms (loop (answer_of s el els).1 rest b))
      → IsShort (answer_of s el els).0.token
      → ComposedAll laws (pos 0) w (answer_of s el els).0.token r
      → Served s w
          ((el, els) ∷ ms)
          (proceed sv loop (after_compose sv (answer_of s el els).1 rest r))
  Served-compose loop s rest w el els ms (compose_ok, n, b) ih short h =
      rw
        (
          h.1 0 refl (omega (arith, short.1)),
          positive (0 + length (wires sv.ops.print_int (answer_of s el els).0.token)),
        )
        (Served-cons s w b el els ms _ h.0 (ih b))
  Served-compose loop s rest w el els ms (enomem, n, b) ih short h = rw h.1 h.0
  Served-compose loop s rest w el els ms (compose_eunfin, n, b) ih short h = absurd h
  Served-compose loop s rest w el els ms (compose_einvalid, n, b) ih short h = absurd h
  Served-compose loop s rest w el els ms (compose_eother, n, b) ih short h = absurd h

  process_loop-Served :
      (s : S) (ms : List (Element × List Element)) (w : B)
      → IsBatch s ms
      → Served s w ms (process_loop sv (suc (length ms)) s (batch_wire ms) w)
  unfolding process_loop compose_rsp
  process_loop-Served s [] w h = (refl, refl, sym (append-nil (laws.contents w)))
  process_loop-Served s ((el, els) ∷ ms) w h =
      subst
        (λ r.
          Served s w ((el, els) ∷ ms)
            (proceed sv (λ s' rbuf b. process_loop sv (suc (length ms)) s' rbuf b) r))
        (sym (round_request s el els (batch_wire ms) w h.0 h.1 h.2))
        (Served-compose (λ s' rbuf b. process_loop sv (suc (length ms)) s' rbuf b) s (batch_wire ms)
          w el els ms _ (λ b. process_loop-Served (answer_of s el els).1 ms b h.4) h.3
          (compose_tokens_lem laws (pos 0) w (answer_of s el els).0.token h.3.0))

  -- Where the buffer library keeps its laws, on the bytes of requests that fit the format, of commands
  -- of the table other than "quit", whose responses each have fewer than 2^31 bytes, as the `int`
  -- that counts them, with texts shorter than 2^31 - 128: one round for each of them and one more are enough for
  -- `rds_process_read`: it processes each request once and in order, each on the state that the one
  -- before it left, reads all bytes and appends the responses in the same order, or ends
  -- with an error and a buffer of responses that cannot be doubled.
  pub rds_process_read-Served :
      (s : S) (ms : List (Element × List Element)) (w : B)
      → IsBatch s ms
      → Served s w ms (rds_process_read sv true (suc (length ms)) s (batch_wire ms) w)
  unfolding rds_process_read
  rds_process_read-Served s ms w h = process_loop-Served s ms w h
