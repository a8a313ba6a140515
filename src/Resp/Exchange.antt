-- ===== src/Resp/Exchange.antt =====
-- What `compose_req` and `compose_rsp` write, read by `parse_req` and `parse_rsp`.
use pelikan.Common.Int.{ℤ, pos}
use pelikan.Common.{ℕ, ◌≡◌, sym, ap, ◌∙◌, subst, List, [], ◌++◌}
use mathlib.Core.List.{append-nil}
use pelikan.Resp.{parse_ok, Element, compose_ok}
use pelikan.Resp.Buffer.{BufferOps, BufferLaws}
use pelikan.Resp.Commands.{Command}
use pelikan.Resp.Message.{Strings, attribs_reset}
use pelikan.Resp.Elements.{
  wires, AllSendable, ComposedAll, compose_tokens_lem, AllWritable, AllSendable-AllWritable,
}
use pelikan.Resp.Request.{Request, request_reset, parse_cmd, parse_req, compose_tokens, compose_req}
use pelikan.Resp.Response.{Response, response_reset, parse_rsp, compose_rsp}
use pelikan.Resp.Accepts.{array_of, parse_req-message}
use pelikan.Resp.Replies.{IsReply, reply_of, parse_rsp-wires}

module _ {B : Type 0} {ops : BufferOps B} (laws : BufferLaws ops) (str : Strings) where
  -- An empty buffer holds the bytes of the elements then, and nothing behind them.
  composed :
      (buf b : B) (n : ℤ) (els : List Element)
      → laws.contents buf ≡ []
      → AllWritable els
      → compose_tokens ops (pos 0) buf els ≡ (compose_ok, n, b)
      → laws.contents b ≡ wires ops.print_int els ++ []
  composed buf b n els empty w e =
      (subst (λ r. ComposedAll laws (pos 0) buf els r) e
        (compose_tokens_lem laws (pos 0) buf els w)).0
      ∙ ap (λ t. t ++ wires ops.print_int els) empty
      ∙ sym (append-nil (wires ops.print_int els))

  -- Where the buffer library keeps its laws and `compose_req` answers OK on an empty buffer, for an
  -- array with one element at least that fit the format and keep to a command of the table,
  -- `parse_req` on the bytes written answers OK and gives a request with the same tokens and the type
  -- of the command, without attributes, and leaves no byte.
  pub parse_req-compose_req :
      (table : List Command) (req : Request) (el : Element) (els : List Element) (buf b : B) (n : ℤ)
      (type : ℕ)
      → laws.contents buf ≡ []
      → req.token ≡ array_of el els
      → AllSendable ops.print_int (array_of el els)
      → parse_cmd str table (array_of el els) ≡ (parse_ok, type)
      → compose_req ops buf req ≡ (compose_ok, n, b)
      → parse_req str table request_reset (laws.contents b)
        ≡ (parse_ok, record request_reset { type = type; token = req.token }, [])
  unfolding compose_req request_reset
  parse_req-compose_req table req el els buf b n type empty t h cmd e =
      rw
        (
          t,
          composed buf b n (array_of el els) empty
              (AllSendable-AllWritable ops.print_int (array_of el els) h)
              (ap (λ k. compose_tokens ops (pos 0) buf k) (sym t) ∙ e),
        )
        (parse_req-message str table ops.print_int request_reset [] el els [] type tt h cmd)

  -- Where the buffer library keeps its laws and `compose_rsp` answers OK on an empty buffer, for the
  -- tokens of a response that fit the format, `parse_rsp` on the bytes written answers OK and gives a
  -- response with the same tokens, without attributes, and leaves no byte.
  pub parse_rsp-compose_rsp :
      (rsp : Response) (buf b : B) (n : ℤ)
      → laws.contents buf ≡ []
      → IsReply rsp.token
      → AllSendable ops.print_int rsp.token
      → compose_rsp ops buf rsp ≡ (compose_ok, n, b)
      → parse_rsp str response_reset (laws.contents b)
        ≡ (parse_ok, reply_of rsp.token attribs_reset, [])
  unfolding compose_rsp response_reset
  parse_rsp-compose_rsp rsp buf b n empty i h e =
      rw (composed buf b n rsp.token empty (AllSendable-AllWritable ops.print_int rsp.token h) e)
        (parse_rsp-wires str ops.print_int [] rsp.token [] tt i h)
