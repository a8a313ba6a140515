-- ===== src/Rds.antt =====
-- server/rds/data/process.c: the loop that parses the requests of a connection, processes them and
-- composes the responses. The functions of the commands and what they change are parameters; metrics
-- are left out.
pub mod Batch
pub mod Unending
mod Tests
use pelikan.Time.{to_i32}
use pelikan.Common.{
  ℕ, zero, suc, Bool, true, false, ◌==◌, if◌then◌else◌, Option, none, some, List, [], ◌∷◌, ◌++◌,
  get_or,
}
use pelikan.Common.Memory.{Bytes}
use pelikan.Common.Int.{ℤ, pos, ◌-ℤ◌, ltb_ℤ}
use pelikan.Resp.{
  ParseStatus, parse_ok, eunfin, Element, elem_err, elem_array, ComposeStatus, compose_ok,
}
use pelikan.Resp.Buffer.{BufferOps}
use pelikan.Resp.Commands.{Command, cmd_init}
use pelikan.Resp.Message.{Strings}
use pelikan.Resp.Request.{Request, request_reset, parse_req}
use pelikan.Resp.Response.{Response, response_reset, compose_rsp}

-- The table and the registry of commands, over what the commands change.
pub record Server (S B : Type 0) : Type 0 where
  pub strings : Strings
  pub ops : BufferOps B
  pub command_table : List Command
  pub command_registry : ℕ → Option (Response → Request → Command → S → Response × S)

-- "Err command not supported"
abbrev pub rsp_err_nosupport : Bytes
rsp_err_nosupport =
    69 ∷ 114 ∷ 114 ∷ 32 ∷ 99 ∷ 111 ∷ 109 ∷ 109 ∷ 97 ∷ 110 ∷ 100 ∷ 32 ∷ 110 ∷ 111 ∷ 116 ∷ 32 ∷ 115
    ∷ 117 ∷ 112 ∷ 112 ∷ 111 ∷ 114 ∷ 116 ∷ 101 ∷ 100 ∷ []

-- The place of "quit" in the table.
abbrev pub req_quit : ℕ
req_quit = 68

abbrev pub unknown_command : Command
unknown_command = cmd_init [] (pos 0) (pos 0)

unfoldable pub command_at : List Command → ℕ → Command
command_at table zero = unknown_command
command_at table (suc n) = get_or table n unknown_command

-- The number of the first token, which is an array.
abbrev pub first_num : List Element → ℤ
first_num (elem_array num ∷ els) = num
first_num _ = pos 0

pub data Round : Type 0 where
  next done error : Round

module _ {S B : Type 0} (sv : Server S B) where
  unfoldable pub process_request : S → Response → Request → Response × S
  process_request s rsp req =
      let cmd = command_at sv.command_table req.type in
      elim (sv.command_registry req.type) [
        | none ↦
            (record rsp { type = 2; token = rsp.token ++ (elem_err rsp_err_nosupport ∷ []) }, s)
        | some func ↦
            func rsp req (record cmd { nopt = to_i32 (first_num req.token -ℤ cmd.narg) }) s
      ]

  abbrev pub after_compose : S → Bytes → ComposeStatus × ℤ × B → Round × S × Bytes × B
  after_compose s rbuf (status, n, wbuf) =
      if ltb_ℤ n (pos 0) then (error, s, rbuf, wbuf) else (next, s, rbuf, wbuf)

  abbrev pub respond : B → Bytes → Response × S → Round × S × Bytes × B
  respond wbuf rbuf (rsp, s) = after_compose s rbuf (compose_rsp sv.ops wbuf rsp)

  -- What follows `parse_req`.
  unfoldable pub round_of : S → B → ParseStatus × Request × Bytes → Round × S × Bytes × B
  round_of s wbuf (parse_ok, req, rbuf) =
      if req.type == req_quit
      then (error, s, rbuf, wbuf)
      else respond wbuf rbuf (process_request s response_reset req)
  round_of s wbuf (eunfin, req, rbuf) = (done, s, rbuf, wbuf)
  round_of s wbuf (status, req, rbuf) = (error, s, rbuf, wbuf)

  -- One round of the loop.
  unfoldable pub round : S → Bytes → B → Round × S × Bytes × B
  round s rbuf wbuf = round_of s wbuf (parse_req sv.strings sv.command_table request_reset rbuf)

  -- The loop goes on where a round says so.
  abbrev pub proceed :
      (S → Bytes → B → Option (Round × S × Bytes × B))
      → Round × S × Bytes × B
      → Option (Round × S × Bytes × B)
  proceed loop (next, s, rbuf, wbuf) = loop s rbuf wbuf
  proceed loop (stop, s, rbuf, wbuf) = some (stop, s, rbuf, wbuf)

  -- At most `fuel` rounds; `none` where they are not enough.
  unfoldable pub process_loop : ℕ → S → Bytes → B → Option (Round × S × Bytes × B)
  process_loop zero s rbuf wbuf = none
  process_loop (suc fuel) s [] wbuf = some (done, s, [], wbuf)
  process_loop (suc fuel) s (c ∷ cs) wbuf =
      proceed (λ s' rbuf w. process_loop fuel s' rbuf w) (round s (c ∷ cs) wbuf)

  -- Where a request and a response could not be borrowed nothing is read.
  unfoldable pub rds_process_read : Bool → ℕ → S → Bytes → B → Option (Round × S × Bytes × B)
  rds_process_read borrowed fuel s rbuf wbuf =
      let run = process_loop fuel s rbuf wbuf in
      if borrowed then run else some (error, s, rbuf, wbuf)
