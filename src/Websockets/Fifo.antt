-- ===== src/Websockets/Fifo.antt =====
-- The order of the messages of pkg/loadtest/websockets.go.
use perpx_load_test.Base.{
  ℕ, zero, suc, ◌≤◌, ◌<◌, ◌≡◌, ◌⊎◌, inl, inr, refl, sym, ap, subst, ◌∙◌, Bool, true, false, Option,
  none, some, List, [], ◌∷◌, ◌++◌, arith, if◌then◌else◌, ltb, length, length-append, append_nil,
  append_assoc, Bool-cases,
}
use perpx_load_test.Base.Int.{pos_part}
use perpx_load_test.Websockets.{
  SocketFailure, SocketOption, WriteRequest, ReadResponse, Frame, text_frame, close_frame, Stage,
  running, stopping_reads, flushing, closing, remote_wait, returned, Socket, new_simple_socket,
  put_frame, handle_write, handle_read, submit_write, submit_read, begin_close, send_close, Event,
  write_request, read_request, write_out, read_in, stop_call, stop_taken, reads_stopped, flush_over,
  close_message, remote_closed, dispatch, step, run,
}

abbrev pub requests : List (WriteRequest × Option SocketFailure) → List WriteRequest
requests [] = []
requests (a ∷ rest) = a.0 ∷ requests rest

-- The frames that the answered requests have put on the wire.
abbrev pub frames_of : List (WriteRequest × Option SocketFailure) → List Frame
frames_of [] = []
frames_of ((r, none) ∷ rest) = text_frame r.payload ∷ frames_of rest
frames_of ((r, some e) ∷ rest) = frames_of rest

-- What an event adds to the requests that the socket has taken in.
abbrev pub taken : Socket → Event → List WriteRequest
taken s (write_request r) =
    if ltb (length s.outbound) (pos_part s.config.outbound_buf_size) then r ∷ [] else []
taken s _ = []

abbrev pub taken_in : Socket → List Event → List WriteRequest
taken_in s [] = []
taken_in s (e ∷ es) = taken s e ++ taken_in (step s e) es

-- Up to the close message the wire holds the frames of the answered requests, and then at most the
-- close message after them, where the configuration asks for it.
abbrev pub WireFits : Stage → Bool → List Frame → List Frame → Type 0
WireFits remote_wait close fs wire =
    (wire ≡ fs) ⊎ ((close ≡ true) × (wire ≡ fs ++ (close_frame ∷ [])))
WireFits returned close fs wire = (wire ≡ fs) ⊎ ((close ≡ true) × (wire ≡ fs ++ (close_frame ∷ [])))
WireFits _ close fs wire = wire ≡ fs

-- A socket that has taken in the requests `l`.
pub record IsFifo (l : List WriteRequest) (s : Socket) : Type 0 where
  pub order : requests s.answers ++ s.outbound ≡ l
  pub room : length s.outbound ≤ pos_part s.config.outbound_buf_size
  pub framed : WireFits s.stage s.config.send_close_message (frames_of s.answers) s.wire

pub requests-append :
    (rest bs : List (WriteRequest × Option SocketFailure))
    → requests (rest ++ bs) ≡ requests rest ++ requests bs
requests-append [] bs = refl
requests-append (a ∷ rest) bs = ap (λ r. a.0 ∷ r) (requests-append rest bs)

frames_of-append :
    (rest bs : List (WriteRequest × Option SocketFailure))
    → frames_of (rest ++ bs) ≡ frames_of rest ++ frames_of bs
frames_of-append [] bs = refl
frames_of-append ((r, none) ∷ rest) bs =
    ap (λ f. text_frame r.payload ∷ f) (frames_of-append rest bs)
frames_of-append ((r, some e) ∷ rest) bs = frames_of-append rest bs

put_frame-frames :
    (r : WriteRequest) (o : Option SocketFailure) (wire : List Frame)
    → put_frame o (text_frame r.payload) wire ≡ wire ++ frames_of ((r, o) ∷ [])
unfolding put_frame
put_frame-frames r none wire = refl
put_frame-frames r (some e) wire = append_nil wire

-- A stage before the close message.
abbrev pub IsOpen : Stage → Type 0
IsOpen remote_wait = ⊥
IsOpen returned = ⊥
IsOpen _ = Unit {0}

open_fits :
    (st : Stage) (close : Bool) (fs wire : List Frame)
    → IsOpen st
    → (WireFits st close fs wire → wire ≡ fs) × (wire ≡ fs → WireFits st close fs wire)
open_fits running close fs wire o = ((λ h. h), (λ h. h))
open_fits stopping_reads close fs wire o = ((λ h. h), (λ h. h))
open_fits (flushing k) close fs wire o = ((λ h. h), (λ h. h))
open_fits closing close fs wire o = ((λ h. h), (λ h. h))
open_fits remote_wait close fs wire o = absurd o
open_fits returned close fs wire o = absurd o

handle_write-IsFifo :
    (l q : List WriteRequest) (o : Option SocketFailure) (st : Stage) (s : Socket)
    → IsOpen s.stage
    → IsOpen st
    → s.outbound ≡ q
    → IsFifo l s
    → IsFifo l (handle_write q o st s)
unfolding handle_write
handle_write-IsFifo l [] o st s a b e v = v
handle_write-IsFifo l (r ∷ q) o st s a b e v = record {
  order =
      ap (λ x. x ++ q) (requests-append s.answers ((r, o) ∷ []))
      ∙ append_assoc (requests s.answers) (r ∷ []) q
      ∙ ap (λ x. requests s.answers ++ x) (sym e)
      ∙ v.order;
  room = omega (arith, v.room, ap length e);
  framed = (open_fits st s.config.send_close_message _ _ b).1 (
      put_frame-frames r o s.wire
      ∙ ap (λ x. x ++ frames_of ((r, o) ∷ []))
          ((open_fits s.stage s.config.send_close_message _ _ a).0 v.framed)
      ∙ sym (frames_of-append s.answers ((r, o) ∷ [])));
}

handle_read-IsFifo :
    (l : List WriteRequest) (q : List ℕ) (r : ReadResponse) (s : Socket)
    → IsFifo l s
    → IsFifo l (handle_read q r s)
unfolding handle_read
handle_read-IsFifo l [] r s v = v
handle_read-IsFifo l (c ∷ q) r s v = record { order = v.order; room = v.room; framed = v.framed }

restage-IsFifo :
    (l : List WriteRequest) (st : Stage) (s : Socket)
    → IsOpen s.stage
    → IsOpen st
    → IsFifo l s
    → IsFifo l (record s { stage = st })
restage-IsFifo l st s a b v = record {
  order = v.order;
  room = v.room;
  framed =
      (open_fits st s.config.send_close_message _ _ b).1
        ((open_fits s.stage s.config.send_close_message _ _ a).0 v.framed);
}

begin_close-IsFifo :
    (l : List WriteRequest) (s : Socket) → IsOpen s.stage → IsFifo l s → IsFifo l (begin_close s)
unfolding begin_close
begin_close-IsFifo l s a v =
    restage-IsFifo l (if s.config.flush_on_stop then flushing (length s.outbound) else closing) s a
      (by_flush s.config.flush_on_stop) v
  where
    by_flush : (b : Bool) → IsOpen (if b then flushing (length s.outbound) else closing)
    by_flush true = tt
    by_flush false = tt

close_fits :
    (close remote : Bool) (o : Option SocketFailure) (fs wire : List Frame)
    → wire ≡ fs
    → WireFits
        (if remote then remote_wait else returned)
        close
        fs
        (if close then put_frame o close_frame wire else wire)
unfolding put_frame
close_fits false true o fs wire h = inl h
close_fits false false o fs wire h = inl h
close_fits true true none fs wire h = inr (refl, ap (λ w. w ++ (close_frame ∷ [])) h)
close_fits true true (some e) fs wire h = inl h
close_fits true false none fs wire h = inr (refl, ap (λ w. w ++ (close_frame ∷ [])) h)
close_fits true false (some e) fs wire h = inl h

send_close-IsFifo :
    (l : List WriteRequest) (o : Option SocketFailure) (s : Socket)
    → s.stage ≡ closing
    → IsFifo l s
    → IsFifo l (send_close o s)
unfolding send_close
send_close-IsFifo l o s q v = record {
  order = v.order;
  room = v.room;
  framed =
      close_fits s.config.send_close_message s.config.wait_for_remote_close o (frames_of s.answers)
        s.wire
        (subst (λ st. WireFits st s.config.send_close_message (frames_of s.answers) s.wire) q
          v.framed);
}

either-IsFifo :
    (l : List WriteRequest) (b : Bool) (s t : Socket)
    → IsFifo l s
    → IsFifo l t
    → IsFifo l (if b then s else t)
either-IsFifo l true s t v w = v
either-IsFifo l false s t v w = w

stage-IsOpen : (s : Socket) (st : Stage) → s.stage ≡ st → IsOpen st → IsOpen s.stage
stage-IsOpen s st q a = subst IsOpen (sym q) a

dispatch-IsFifo :
    (l : List WriteRequest) (st : Stage) (e : Event) (s : Socket)
    → s.stage ≡ st
    → IsFifo l s
    → IsFifo l (dispatch st e s)
unfolding dispatch
dispatch-IsFifo l running (write_out o) s q v =
    handle_write-IsFifo l s.outbound o running s (stage-IsOpen s running q tt) tt refl v
dispatch-IsFifo l running (read_in r) s q v = handle_read-IsFifo l s.inbound r s v
dispatch-IsFifo l running stop_taken s q v =
    either-IsFifo l s.stop (record s { stage = stopping_reads }) s
      (restage-IsFifo l stopping_reads s (stage-IsOpen s running q tt) tt v) v
dispatch-IsFifo l stopping_reads (read_in r) s q v = handle_read-IsFifo l s.inbound r s v
dispatch-IsFifo l stopping_reads reads_stopped s q v =
    begin_close-IsFifo l s (stage-IsOpen s stopping_reads q tt) v
dispatch-IsFifo l (flushing (suc k)) (write_out o) s q v =
    handle_write-IsFifo l s.outbound o (flushing k) s (stage-IsOpen s (flushing (suc k)) q tt) tt
      refl v
dispatch-IsFifo l (flushing zero) flush_over s q v =
    restage-IsFifo l closing s (stage-IsOpen s (flushing zero) q tt) tt v
dispatch-IsFifo l closing (close_message o) s q v = send_close-IsFifo l o s q v
dispatch-IsFifo l remote_wait remote_closed s q v = record {
  order = v.order;
  room = v.room;
  framed =
      subst (λ st. WireFits st s.config.send_close_message (frames_of s.answers) s.wire) q v.framed;
}
dispatch-IsFifo l _ _ s q v = v

still :
    (l : List WriteRequest) (s : Socket) (e : Event)
    → IsFifo l s
    → IsFifo (l ++ []) (dispatch s.stage e s)
still l s e v =
    subst (λ k. IsFifo k (dispatch s.stage e s)) (append_nil l)
      (dispatch-IsFifo l s.stage e s refl v)

submit_write-IsFifo :
    (l : List WriteRequest) (r : WriteRequest) (s : Socket)
    → IsFifo l s
    → IsFifo (l ++ taken s (write_request r)) (submit_write r s)
unfolding submit_write
submit_write-IsFifo l r s v =
    elim (Bool-cases (ltb (length s.outbound) (pos_part s.config.outbound_buf_size))) [
      | inl h ↦ rw h (record {
        order =
            sym (append_assoc (requests s.answers) s.outbound (r ∷ []))
            ∙ ap (λ x. x ++ (r ∷ [])) v.order;
        room =
            let lt : length s.outbound < pos_part s.config.outbound_buf_size = ground arith in
            omega (arith, length-append s.outbound (r ∷ []));
        framed = v.framed;
      })
      | inr h ↦ rw h (subst (λ k. IsFifo k s) (append_nil l) v)
    ]

step-IsFifo :
    (l : List WriteRequest) (s : Socket) (e : Event)
    → IsFifo l s
    → IsFifo (l ++ taken s e) (step s e)
unfolding step submit_read
step-IsFifo l s (write_request r) v = submit_write-IsFifo l r s v
step-IsFifo l s (read_request c) v =
    elim (Bool-cases (ltb (length s.inbound) (pos_part s.config.inbound_buf_size))) [
      | inl h ↦ rw h (
          subst (λ k. IsFifo k (record s { inbound = s.inbound ++ (c ∷ []) })) (append_nil l)
            (record { order = v.order; room = v.room; framed = v.framed }))
      | inr h ↦ rw h (subst (λ k. IsFifo k s) (append_nil l) v)
    ]
step-IsFifo l s stop_call v =
    subst (λ k. IsFifo k (record s { stop = true })) (append_nil l)
      (record { order = v.order; room = v.room; framed = v.framed })
step-IsFifo l s (write_out o) v = still l s (write_out o) v
step-IsFifo l s (read_in r) v = still l s (read_in r) v
step-IsFifo l s stop_taken v = still l s stop_taken v
step-IsFifo l s reads_stopped v = still l s reads_stopped v
step-IsFifo l s flush_over v = still l s flush_over v
step-IsFifo l s (close_message o) v = still l s (close_message o) v
step-IsFifo l s remote_closed v = still l s remote_closed v

run_from-IsFifo :
    (es : List Event) (l : List WriteRequest) (s : Socket)
    → IsFifo l s
    → IsFifo (l ++ taken_in s es) (run s es)
unfolding run
run_from-IsFifo [] l s v = subst (λ k. IsFifo k s) (append_nil l) v
run_from-IsFifo (e ∷ es) l s v =
    subst (λ k. IsFifo k (run (step s e) es)) (append_assoc l (taken s e) (taken_in (step s e) es))
      (run_from-IsFifo es (l ++ taken s e) (step s e) (step-IsFifo l s e v))

-- Whatever a socket's callers, its peer and its connection do: the requests that it has answered and
-- those that wait in its channel are together, in their order, the requests that it has taken in; no
-- more wait than the channel holds; and the wire holds the frames of the answered requests that did
-- not fail, in the same order, followed, only once the socket has closed and only where that is
-- configured, by one close message.
pub run-IsFifo :
    (opts : List SocketOption) (es : List Event)
    → IsFifo (taken_in (new_simple_socket opts) es) (run (new_simple_socket opts) es)
run-IsFifo opts es =
    run_from-IsFifo es [] (new_simple_socket opts)
      (unfold new_simple_socket in record { order = refl; room = omega arith; framed = refl })
