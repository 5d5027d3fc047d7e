-- ===== src/Client/Reported.antt =====
-- `print_result` of the client over its whole map.
use latency_under_load.Prelude.{
  ℕ, ◌≤◌, ◌≡◌, ◌≢◌, ◌∙◌, refl, sym, ap, some, List, [], ◌∷◌, ◌++◌, arith, length, drop, get_elem?,
  set, get_elem?-set_ne, get_elem?_of_lt, if◌then◌else◌, ltb, add32, ok, ◌*◌, int_limit,
}
use latency_under_load.Prelude.Int.{ℤ, pos}
use latency_under_load.Config.{Config}
use latency_under_load.Queue.{Queue}
use latency_under_load.Queue.Refine.{Represents}
use latency_under_load.Connection.{Connection}
use latency_under_load.Runner.{Runner, Pointer, put_connection}
use latency_under_load.Runner.Mapped.{IsMapped, IsNowhere}
use latency_under_load.Client.Replies.{AreTimed}
use latency_under_load.Client.Report.{Report, save_connection, save_connections, print_result}
use latency_under_load.Client.Saved.{lines_from, sum_from, save_connection_lem}

-- A connection's index and its round trip times.
pub record Times : Type 0 where
  pub index : ℕ
  pub rtts : List ℤ

-- The entry leads to a connection with these times.
pub record HasRtts (heap : List Connection) (p : Pointer) (t : Times) : Type 0 where
  pub i : ℕ
  pub c : Connection
  pub q : Queue ℤ
  pub place : p ≡ some i
  pub at : get_elem? heap i ≡ some c
  pub index_is : c.index ≡ t.index
  pub queue_is : c.msgs_rtt ≡ some q
  pub represents : Represents q t.rtts

-- The times of the entries, in their order, of different connections.
abbrev pub HaveRtts : List Connection → List (ℕ × Pointer) → List Times → Type 0
HaveRtts heap [] [] = Unit
HaveRtts heap [] (t ∷ ts) = ⊥
HaveRtts heap (entry ∷ entries) [] = ⊥
HaveRtts heap ((fd, p) ∷ entries) (t ∷ ts) =
    ((k : HasRtts heap p t) × IsNowhere k.i entries) × HaveRtts heap entries ts

-- The report with the times of one connection, without those that are ignored.
abbrev pub add_times : ℕ → Times → Report → Report
add_times ignored t report = record report {
  lines = report.lines ++ lines_from t.index 1 (drop ignored t.rtts);
  latency_sum = sum_from report.latency_sum (drop ignored t.rtts);
  msg_count =
      if ltb ignored (length t.rtts)
      then add32 report.msg_count (length t.rtts)
      else report.msg_count;
}

abbrev pub add_all : ℕ → List Times → Report → Report
add_all ignored [] report = report
add_all ignored (t ∷ ts) report = add_all ignored ts (add_times ignored t report)

abbrev pub AreShort : ℕ → List Times → Type 0
AreShort n [] = Unit
AreShort n (t ∷ ts) = (length t.rtts ≤ n) × AreShort n ts

-- The report that the loop over the map begins with.
abbrev pub empty_report : ℕ → Report
empty_report count = record { lines = []; latency_sum = pos 0; msg_count = count }

-- The report can be made of a runner, with fuel for queues as long as an `int` counts: it has the
-- times of all entries of the map, of different connections.
abbrev pub IsReported : Config → Runner → Type 0
IsReported config r =
    (ts : List Times) × (r' : Runner) × HaveRtts r.heap r.connection_list ts
    × (print_result int_limit r
        ≡ ok (r', add_all (config.warm * config.mps) ts (empty_report r.msg_count)))

-- A change of a connection to which no entry leads.
other-HaveRtts :
    (heap : List Connection) (i : ℕ) (c : Connection) (entries : List (ℕ × Pointer))
    (ts : List Times)
    → IsNowhere i entries
    → HaveRtts heap entries ts
    → HaveRtts (set heap i c) entries ts
other-HaveRtts heap i c [] [] away h = tt
other-HaveRtts heap i c [] (t ∷ ts) away h = absurd h
other-HaveRtts heap i c (entry ∷ entries) [] away h = absurd h
other-HaveRtts heap i c ((fd, p) ∷ entries) (t ∷ ts) away h =
    let (k, nowhere) = h.0 in
    let apart : i ≢ k.i = λ e. away.0 (k.place ∙ ap some (sym e)) in
    (
      (
        record {
          i = k.i;
          c = k.c;
          q = k.q;
          place = k.place;
          at = get_elem?-set_ne heap i k.i c apart ∙ k.at;
          index_is = k.index_is;
          queue_is = k.queue_is;
          represents = k.represents;
        },
        nowhere,
      ),
      other-HaveRtts heap i c entries ts away.1 h.1,
    )

-- The body of the loop over the map.
save_one :
    (fuel ignored : ℕ) (p : Pointer) (t : Times) (r : Runner) (report : Report)
    → (k : HasRtts r.heap p t) → length t.rtts ≤ fuel
    → (q' : Queue ℤ) × (save_connection fuel ignored p (r, report)
        ≡ ok (
          put_connection k.i (record (k.c) { msgs_rtt = some q' }) r,
          add_times ignored t report,
        ))
save_one fuel ignored p t r report k few =
    let (q', _, e) =
      save_connection_lem fuel ignored k.i k.c r k.q t.rtts report k.at k.queue_is k.represents
        few in
    (q', rw (k.place, ← k.index_is) e)

save_connections_lem :
    (fuel ignored : ℕ) (entries : List (ℕ × Pointer)) (ts : List Times) (r : Runner)
    (report : Report)
    → HaveRtts r.heap entries ts
    → AreShort fuel ts
    → (r' : Runner) × (save_connections fuel ignored entries (r, report)
        ≡ ok (r', add_all ignored ts report))
unfolding save_connections
save_connections_lem fuel ignored [] [] r report h few = (r, refl)
save_connections_lem fuel ignored [] (t ∷ ts) r report h few = absurd h
save_connections_lem fuel ignored (entry ∷ entries) [] r report h few = absurd h
save_connections_lem fuel ignored ((fd, p) ∷ entries) (t ∷ ts) r report h few =
    let (k, nowhere) = h.0 in
    let (q', e) = save_one fuel ignored p t r report k few.0 in
    let c' : Connection = record (k.c) { msgs_rtt = some q' } in
    let (r'', e') =
      save_connections_lem fuel ignored entries ts (put_connection k.i c' r)
        (add_times ignored t report) (other-HaveRtts r.heap k.i c' entries ts nowhere h.1) few.1 in
    (r'', rw (e, e') refl)

-- Where the entries of the map lead to different connections, and with as much fuel as any of them
-- has round trip times: `print_result` makes no fault. In the order of the map it saves, of each
-- connection, the round trip times past the ignored ones, numbered from 1, adds these to the sum, as
-- `double`s one after the other,
-- and adds all of the connection's to the count of messages if it saves any.
pub print_result_lem :
    (fuel : ℕ) (r : Runner) (ts : List Times)
    → HaveRtts r.heap r.connection_list ts
    → AreShort fuel ts
    → (r' : Runner) × (print_result fuel r
        ≡ ok (r', add_all (r.config.warm * r.config.mps) ts (empty_report r.msg_count)))
unfolding print_result
print_result_lem fuel r ts h few =
    save_connections_lem fuel (r.config.warm * r.config.mps) r.connection_list ts r _ h few

-- The times of a map whose entries lead to different connections, all of which have their queues.
pub IsMapped-HaveRtts :
    (heap : List Connection) (entries : List (ℕ × Pointer))
    → IsMapped (length heap) entries
    → AreTimed heap
    → (ts : List Times) × HaveRtts heap entries ts × AreShort int_limit ts
IsMapped-HaveRtts heap [] mapped timed = ([], tt, tt)
IsMapped-HaveRtts heap ((fd, p) ∷ entries) mapped timed =
    let (i, place, within, nowhere) = mapped.0 in
    let (c, at) = get_elem?_of_lt heap i within in
    let (waiting, rtts, h) = timed i c at in
    let (ts, have, few) = IsMapped-HaveRtts heap entries mapped.1 timed in
    (
      record { index = c.index; rtts = rtts } ∷ ts,
      (
        (
          record {
            i = i;
            c = c;
            q = h.times;
            place = place;
            at = at;
            index_is = refl;
            queue_is = h.times_is;
            represents = h.times_list;
          },
          nowhere,
        ),
        have,
      ),
      (omega (arith, h.times_list.fits, h.times_list.small), few),
    )

-- The times are ignored as a configuration of the runner says.
pub IsMapped-IsReported :
    (config : Config) (r : Runner)
    → r.config ≡ config
    → IsMapped (length r.heap) r.connection_list
    → AreTimed r.heap
    → IsReported config r
IsMapped-IsReported config r same mapped timed =
    let (ts, have, few) = IsMapped-HaveRtts r.heap r.connection_list mapped timed in
    let (r', e) = print_result_lem int_limit r ts have few in
    let ignored = ap (λ (c : Config). c.warm * c.mps) same in
    (ts, r', have, e ∙ ap (λ n. ok (r', add_all n ts (empty_report r.msg_count))) ignored)
