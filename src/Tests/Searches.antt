-- ===== src/Tests/Searches.antt =====
-- The client over an aMule that never finishes a search, and a magnet link that is added.
use amarr.Prelude.{ℕ, ◌+◌, none, [], ◌∷◌, arith, ◌==◌, if◌then◌else◌}
use amarr.Py.Result.{ok}
use amarr.Py.Stateful.{Stateful}
use amarr.Ec.OpCode.{ec_op_search_start, ec_op_search_progress}
use amarr.Ec.Packet.{Packet}
use amarr.Jamule.Request.{SearchType}
use amarr.Jamule.Response.{Response, strings, search_results, search_status, download_queue}
use amarr.Jamule.Client.{Clock, search_sync}
use amarr.Jamule.Client.Search.{IsMonotonic, Ends, search_sync-Ends}

abbrev answer_to : ℕ → Response
answer_to op =
    if op == ec_op_search_start
    then strings []
    else if op == ec_op_search_progress
    then search_status (record { num = 0; den = 100 })
    else search_results []

-- The state is the time.
abbrev searching : Packet → Stateful ℕ Response
searching packet now = (ok (answer_to packet.op_code), now)

abbrev wall_clock : Clock ℕ
wall_clock = record { monotonic = λ now. now; sleep = λ ms now. now + ms }

wall_clock-IsMonotonic : IsMonotonic searching wall_clock
wall_clock-IsMonotonic = record { slept = λ ms w. omega arith; sent = λ p w. omega arith }

search_sync-Ends_example :
    Ends searching wall_clock
      (search_sync searching wall_clock 52 (97 ∷ []) SearchType.global none 5000 1_000_000)
search_sync-Ends_example =
    search_sync-Ends searching wall_clock 51 (97 ∷ []) SearchType.global none 5000 1_000_000
      wall_clock-IsMonotonic (omega arith)

abbrev idle : Packet → Stateful ℕ Response
idle packet n = (ok (download_queue []), n + 1)
