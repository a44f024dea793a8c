-- ===== src/Websockets/Flush.antt =====
-- The flush of pkg/loadtest/websockets.go.
use perpx_load_test.Base.{
  ℕ, zero, suc, ◌≤◌, ◌≡◌, refl, sym, ap, subst, ◌∙◌, Bool, true, false, Option, none, List, [], ◌∷◌,
  ◌++◌, arith, if◌then◌else◌, ltb, length, length-append, take, take_all, append_nil, append_assoc,
}
use perpx_load_test.Base.Int.{pos_part}
use perpx_load_test.Websockets.{
  SocketFailure, WriteRequest, ReadResponse, Stage, running, stopping_reads, flushing, closing,
  remote_wait, returned, Socket, handle_write, handle_read, submit_write, submit_read, begin_close,
  send_close, Event, write_request, read_request, write_out, read_in, stop_call, stop_taken,
  reads_stopped, flush_over, close_message, remote_closed, dispatch, step, run,
}
use perpx_load_test.Websockets.Fifo.{requests, requests-append}

-- A socket that is to answer the requests `l` and no other: `k` of them in its channel, or none.
abbrev pub Owes : List WriteRequest → Stage → Socket → Type 0
Owes l (flushing k) s = (k ≤ length s.outbound) × (requests s.answers ++ take k s.outbound ≡ l)
Owes l running s = ⊥
Owes l stopping_reads s = ⊥
Owes l _ s = requests s.answers ≡ l

take-append : (k : ℕ) (xs ys : List WriteRequest) → k ≤ length xs → take k (xs ++ ys) ≡ take k xs
take-append zero xs ys h = refl
take-append (suc k) [] ys h = absurd (omega arith)
take-append (suc k) (x ∷ xs) ys h = ap (λ r. x ∷ r) (take-append k xs ys (omega arith))

flush_one :
    (l q : List WriteRequest) (o : Option SocketFailure) (k : ℕ) (s : Socket)
    → s.outbound ≡ q
    → suc k ≤ length q
    → requests s.answers ++ take (suc k) q ≡ l
    → Owes l (handle_write q o (flushing k) s).stage (handle_write q o (flushing k) s)
unfolding handle_write
flush_one l [] o k s e h v = absurd (omega arith)
flush_one l (r ∷ q) o k s e h v = (
  omega arith,
  ap (λ x. x ++ take k q) (requests-append s.answers ((r, o) ∷ []))
      ∙ append_assoc (requests s.answers) (r ∷ []) (take k q)
      ∙ v,
)

after_close :
    (l : List WriteRequest) (b : Bool) (s : Socket)
    → requests s.answers ≡ l
    → Owes l (if b then remote_wait else returned) s
after_close l true s v = v
after_close l false s v = v

read-Owes :
    (l : List WriteRequest) (st : Stage) (q : List ℕ) (r : ReadResponse) (s : Socket)
    → Owes l st s
    → Owes l st (handle_read q r s)
unfolding handle_read
read-Owes l st [] r s v = v
read-Owes l running (c ∷ q) r s v = absurd v
read-Owes l stopping_reads (c ∷ q) r s v = absurd v
read-Owes l (flushing k) (c ∷ q) r s v = v
read-Owes l closing (c ∷ q) r s v = v
read-Owes l remote_wait (c ∷ q) r s v = v
read-Owes l returned (c ∷ q) r s v = v

dispatch-Owes :
    (l : List WriteRequest) (st : Stage) (e : Event) (s : Socket)
    → s.stage ≡ st
    → Owes l st s
    → Owes l (dispatch st e s).stage (dispatch st e s)
unfolding dispatch send_close
dispatch-Owes l (flushing (suc k)) (write_out o) s q (h, v) = flush_one l s.outbound o k s refl h v
dispatch-Owes l (flushing zero) flush_over s q (h, v) = append_nil (requests s.answers) ∙ v
dispatch-Owes l closing (close_message o) s q v =
    after_close l s.config.wait_for_remote_close (send_close o s) v
dispatch-Owes l remote_wait remote_closed s q v = v
dispatch-Owes l running e s q v = absurd v
dispatch-Owes l stopping_reads e s q v = absurd v
dispatch-Owes l st e s q v = subst (λ z. Owes l z s) (sym q) v

submit-Owes :
    (l : List WriteRequest) (st : Stage) (r : WriteRequest) (s : Socket)
    → Owes l st s
    → Owes l st (record s { outbound = s.outbound ++ (r ∷ []) })
submit-Owes l (flushing k) r s (h, v) = (
  omega (arith, length-append s.outbound (r ∷ [])),
  ap (λ x. requests s.answers ++ x) (take-append k s.outbound (r ∷ []) h) ∙ v,
)
submit-Owes l running r s v = absurd v
submit-Owes l stopping_reads r s v = absurd v
submit-Owes l closing r s v = v
submit-Owes l remote_wait r s v = v
submit-Owes l returned r s v = v

-- Fields that the flush does not read.
quiet-Owes :
    (l : List WriteRequest) (st : Stage) (q : List ℕ) (b : Bool) (s : Socket)
    → Owes l st s
    → Owes l st (record s { inbound = q; stop = b })
quiet-Owes l (flushing k) q b s v = v
quiet-Owes l running q b s v = absurd v
quiet-Owes l stopping_reads q b s v = absurd v
quiet-Owes l closing q b s v = v
quiet-Owes l remote_wait q b s v = v
quiet-Owes l returned q b s v = v

either-Owes :
    (l : List WriteRequest) (b : Bool) (s t : Socket)
    → Owes l s.stage s
    → Owes l t.stage t
    → Owes l (if b then s else t).stage (if b then s else t)
either-Owes l true s t v w = v
either-Owes l false s t v w = w

step-Owes :
    (l : List WriteRequest) (s : Socket) (e : Event)
    → Owes l s.stage s
    → Owes l (step s e).stage (step s e)
unfolding step submit_write submit_read
step-Owes l s (write_request r) v =
    either-Owes l (ltb (length s.outbound) (pos_part s.config.outbound_buf_size))
      (record s { outbound = s.outbound ++ (r ∷ []) }) s (submit-Owes l s.stage r s v) v
step-Owes l s (read_request c) v =
    either-Owes l (ltb (length s.inbound) (pos_part s.config.inbound_buf_size))
      (record s { inbound = s.inbound ++ (c ∷ []) }) s
      (quiet-Owes l s.stage (s.inbound ++ (c ∷ [])) s.stop s v) v
step-Owes l s stop_call v = quiet-Owes l s.stage s.inbound true s v
step-Owes l s (write_out o) v = dispatch-Owes l s.stage (write_out o) s refl v
step-Owes l s (read_in r) v = dispatch-Owes l s.stage (read_in r) s refl v
step-Owes l s stop_taken v = dispatch-Owes l s.stage stop_taken s refl v
step-Owes l s reads_stopped v = dispatch-Owes l s.stage reads_stopped s refl v
step-Owes l s flush_over v = dispatch-Owes l s.stage flush_over s refl v
step-Owes l s (close_message o) v = dispatch-Owes l s.stage (close_message o) s refl v
step-Owes l s remote_closed v = dispatch-Owes l s.stage remote_closed s refl v

run-Owes :
    (es : List Event) (l : List WriteRequest) (s : Socket)
    → Owes l s.stage s
    → Owes l (run s es).stage (run s es)
unfolding run
run-Owes [] l s v = v
run-Owes (e ∷ es) l s v = run-Owes es l (step s e) (step-Owes l s e v)

begin-Owes :
    (b : Bool) (s : Socket)
    → b ≡ true
    → Owes
        (requests s.answers ++ s.outbound)
        (if b then flushing (length s.outbound) else closing)
        (record s { stage = if b then flushing (length s.outbound) else closing })
begin-Owes true s e = (
  omega arith,
  ap (λ x. requests s.answers ++ x) (take_all (length s.outbound) s.outbound (omega arith)),
)
begin-Owes false s e = absurd (ground arith)

begun :
    (s : Socket)
    → s.stage ≡ stopping_reads
    → s.config.flush_on_stop ≡ true
    → Owes (requests s.answers ++ s.outbound) (step s reads_stopped).stage (step s reads_stopped)
unfolding step dispatch begin_close
begun s q f = rw q (begin-Owes s.config.flush_on_stop s f)

-- The events of a flush in which the writes end with `os`, and of the end of `close`.
abbrev pub flush_events : List (Option SocketFailure) → List Event
flush_events [] = flush_over ∷ close_message none ∷ remote_closed ∷ []
flush_events (o ∷ os) = write_out o ∷ flush_events os

after_remote :
    (b : Bool) (s : Socket)
    → (dispatch
        (if b then remote_wait else returned)
        remote_closed
        (record s { stage = if b then remote_wait else returned })).stage
      ≡ returned
unfolding dispatch
after_remote true s = refl
after_remote false s = refl

drain_one :
    (os : List (Option SocketFailure)) (q : List WriteRequest) (o : Option SocketFailure)
    (s : Socket)
    → ((u : Socket)
        → length u.outbound ≡ length os
        → (run (record u { stage = flushing (length os) }) (flush_events os)).stage ≡ returned)
    → length q ≡ suc (length os)
    → (run (handle_write q o (flushing (length os)) s) (flush_events os)).stage ≡ returned
unfolding handle_write
drain_one os [] o s rest h = absurd (omega arith)
drain_one os (r ∷ q) o s rest h =
    rest (handle_write (r ∷ q) o (flushing (length os)) s) (omega arith)

drain :
    (os : List (Option SocketFailure)) (s : Socket)
    → length s.outbound ≡ length os
    → (run (record s { stage = flushing (length os) }) (flush_events os)).stage ≡ returned
unfolding run step dispatch send_close
drain [] s h =
    after_remote s.config.wait_for_remote_close (send_close none (record s { stage = closing }))
drain (o ∷ os) s h =
    drain_one os s.outbound o (record s { stage = flushing (suc (length os)) })
      (λ u k. drain os u k) h

drain_begun :
    (b : Bool) (s : Socket) (os : List (Option SocketFailure))
    → b ≡ true
    → length s.outbound ≡ length os
    → (run
        (record s { stage = if b then flushing (length s.outbound) else closing })
        (flush_events os)).stage
      ≡ returned
drain_begun true s os f h = rw h (drain os s h)
drain_begun false s os f h = absurd (ground arith)

begun_returns :
    (s : Socket) (os : List (Option SocketFailure))
    → s.stage ≡ stopping_reads
    → s.config.flush_on_stop ≡ true
    → length s.outbound ≡ length os
    → (run (step s reads_stopped) (flush_events os)).stage ≡ returned
unfolding step dispatch begin_close
begun_returns s os q f h = rw q (drain_begun s.config.flush_on_stop s os f h)

-- A socket that is stopping, and that is to flush, answers the requests that wait in its channel when
-- its read pump has stopped: once it has returned, those and the ones answered before are all that it
-- has answered, in their order, whatever its callers submit meanwhile and whether or not the writes
-- fail. With as many results of writes as requests wait, the flush and the rest of the stopping do
-- return.
pub run-flush :
    (s : Socket) (es : List Event) (os : List (Option SocketFailure))
    → s.stage ≡ stopping_reads
    → s.config.flush_on_stop ≡ true
    → (run (step s reads_stopped) es).stage ≡ returned
    → length s.outbound ≡ length os
    → (requests (run (step s reads_stopped) es).answers ≡ requests s.answers ++ s.outbound)
      × ((run (step s reads_stopped) (flush_events os)).stage ≡ returned)
run-flush s es os q f d h = (
  subst (λ st. Owes (requests s.answers ++ s.outbound) st (run (step s reads_stopped) es)) d
      (run-Owes es (requests s.answers ++ s.outbound) (step s reads_stopped) (begun s q f)),
  begun_returns s os q f h,
)
