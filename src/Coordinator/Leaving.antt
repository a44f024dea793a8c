-- ===== src/Coordinator/Leaving.antt =====
-- What an update of a worker that has left does (`receiveTestingUpdates` of
-- pkg/loadtest/coordinator.go).
use perpx_load_test.Base.{
  ◌≡◌, refl, sym, ap, ◌∙◌, false, String, eq_iff, none, List, ◌∷◌, arith, if◌then◌else◌, is_some,
  lookup, lookup-delete,
}
use perpx_load_test.Base.Int.{ℤ}
use perpx_load_test.Protocol.{WorkerMsg}
use perpx_load_test.Coordinator.{unregister, going}
use perpx_load_test.Coordinator.Testing.{
  TestEvent, update, leaving, Testing, track_message, by_state, test_step, test_on,
}

same_step :
    (t : Testing) (msg : WorkerMsg) (now : ℤ)
    → is_some (lookup msg.id t.coord.workers) ≡ false
    → test_step t (update msg now) ≡ (t, going)
unfolding test_step
same_step t msg now h =
    ap
      (λ b.
        if b
        then by_state msg.state msg now (record t { coord = track_message msg t.coord })
        else (t, going))
      h

gone : (id : String) (t : Testing) → is_some (lookup id (unregister id t.coord).workers) ≡ false
unfolding unregister
gone id t = rw (lookup-delete id id t.coord.workers) (ground (arith, eq_iff id id))

after_leaving :
    (id : String) (t : Testing) (es : List TestEvent)
    → test_on (t, going) (leaving id none ∷ es)
      ≡ test_on (record t { coord = unregister id t.coord }, going) es
unfolding test_on test_step
after_leaving id t es = refl

one_more :
    (t : Testing) (e : TestEvent) (es : List TestEvent)
    → test_on (t, going) (e ∷ es) ≡ test_on (test_step t e) es
unfolding test_on
one_more t e es = refl

-- An update of a worker whose connection has already been reported as closed is ignored, be it in
-- the state `completed`: the rest of the phase is as if it had not come.
pub update_after_leaving :
    (msg : WorkerMsg) (now : ℤ) (t : Testing) (es : List TestEvent)
    → test_on (t, going) (leaving msg.id none ∷ update msg now ∷ es)
      ≡ test_on (t, going) (leaving msg.id none ∷ es)
update_after_leaving msg now t es =
    let t' : Testing = record t { coord = unregister msg.id t.coord } in
    after_leaving msg.id t (update msg now ∷ es)
    ∙ one_more t' (update msg now) es
    ∙ ap (λ r. test_on r es) (same_step t' msg now (gone msg.id t))
    ∙ sym (after_leaving msg.id t es)
