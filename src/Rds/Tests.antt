-- ===== src/Rds/Tests.antt =====
-- The theorems about the loop at a server that counts the requests.
use pelikan.Common.{
  ℕ, ◌+◌, refl, ap, arith, none, some, if◌then◌else◌, ◌==◌, List, [], ◌∷◌, ◌++◌, true,
}
use pelikan.Common.Int.{pos}
use pelikan.Resp.{Element, elem_int}
use pelikan.Resp.Commands.{Command}
use pelikan.Resp.Room.{
  Room, print_small, ops, laws, by_bytes, limited, ping, ping_runs, ping-AllSendable,
}
use pelikan.Resp.Request.{Request}
use pelikan.Resp.Response.{Response}
use pelikan.Resp.Wire.{wire}
use pelikan.Rds.{req_quit, Server, rds_process_read, process_request}
use pelikan.Rds.Batch.{IsBatch, Served, batch_wire, rds_process_read-Served, IsShort, answer_of}
use pelikan.Rds.Unending.{Unended, rds_process_read_stuck}

-- The answer to a request is how many were answered before.
abbrev count : Response → Request → Command → ℕ → Response × ℕ
count rsp req cmd s = (record rsp { type = 3; token = elem_int (pos s) ∷ [] }, s + 1)

abbrev server : Server ℕ Room
server = record {
  strings = by_bytes;
  ops = ops;
  command_table = limited;
  command_registry = λ type. if type == 67 then some count else none;
}

abbrev batch : List (Element × List Element)
batch = (ping, []) ∷ (ping, []) ∷ []

count-IsShort : (s : ℕ) → IsShort server laws (answer_of server laws s ping []).0.token
unfolding process_request
count-IsShort s = rw (process_request, ap (λ r. r.1 == 67) ping_runs) ((tt, tt), omega arith)

batch-IsBatch : IsBatch server laws 5 batch
batch-IsBatch =
    let one = ap (λ r. r.0) ping_runs in
    let plain = ap (λ r. r.1 == req_quit) ping_runs in
    (
      ping-AllSendable,
      one,
      plain,
      count-IsShort 5,
      (ping-AllSendable, one, plain, count-IsShort (answer_of server laws 5 ping []).1, tt),
    )

read_example :
    Served server laws 5
      ([], 1)
      batch
      (rds_process_read server true 3 5 (batch_wire server laws batch) ([], 1))
read_example = rds_process_read-Served server laws 5 batch ([], 1) batch-IsBatch

stuck_example :
    Unended server laws
      (rds_process_read server true 9 5 (wire print_small (elem_int (pos 5)) ++ []) ([], 1))
stuck_example =
    rds_process_read_stuck server laws print_small 9 5 (elem_int (pos 5)) [] ([], 1) refl
      (omega arith, (omega arith, (omega arith, omega arith, tt), refl)) tt
