-- ===== src/Tui/Stopping.antt =====
-- How the terminal UI is stopped (pkg/loadtest/tui.go).
use perpx_load_test.Base.{
  ℕ, zero, suc, ◌≡◌, refl, Bool, true, false, List, [], ◌∷◌, ◌++◌, All, if◌then◌else◌,
}
use perpx_load_test.Base.Int.{ℤ}
use perpx_load_test.Config.{Config}
use perpx_load_test.Tui.{
  Tui, Event, tick, goroutine_returns, stop_call, call_goes_on, Output, clear_screen, show_cursor,
  hide_cursor, shown, start_standalone_tui, step, run, drawn, draw, restore, after_stopped,
}

abbrev is_frame : Output → Bool
is_frame (shown f) = true
is_frame _ = false

abbrev is_cursor : Output → Bool
is_cursor show_cursor = true
is_cursor _ = false

abbrev NoFrame : List Output → Type 0
NoFrame = All (λ o. is_frame o ≡ false)

abbrev NoCursor : List Output → Type 0
NoCursor = All (λ o. is_cursor o ≡ false)

-- Nothing is drawn once the cursor has been shown again.
abbrev pub IsQuietAfter : List Output → Type 0
IsQuietAfter [] = Unit
IsQuietAfter (show_cursor ∷ os) = NoFrame os
IsQuietAfter (hide_cursor ∷ os) = IsQuietAfter os
IsQuietAfter (clear_screen ∷ os) = IsQuietAfter os
IsQuietAfter (shown f ∷ os) = IsQuietAfter os

-- The terminal of a UI that may have been stopped.
record IsOrdered (u : Tui) : Type 0 where
  quiet : IsQuietAfter u.terminal
  not_yet : u.stopped ≡ false → NoCursor u.terminal

All-append : (P : Output → Type 0) (os ms : List Output) → All P os → All P ms → All P (os ++ ms)
All-append P [] ms h k = k
All-append P (o ∷ os) ms (h, hs) k = (h, All-append P os ms hs k)

-- More may be drawn where the cursor has not been shown, and nothing but frames is sent otherwise.
quiet_before : (os ms : List Output) → NoCursor os → IsQuietAfter ms → IsQuietAfter (os ++ ms)
quiet_before [] ms h k = k
quiet_before (show_cursor ∷ os) ms (h, hs) k = cc
quiet_before (hide_cursor ∷ os) ms (h, hs) k = quiet_before os ms hs k
quiet_before (clear_screen ∷ os) ms (h, hs) k = quiet_before os ms hs k
quiet_before (shown f ∷ os) ms (h, hs) k = quiet_before os ms hs k

quiet_on :
    (os ms : List Output) → IsQuietAfter os → NoFrame ms → IsQuietAfter ms → IsQuietAfter (os ++ ms)
quiet_on [] ms h n k = k
quiet_on (show_cursor ∷ os) ms h n k = All-append (λ o. is_frame o ≡ false) os ms h n
quiet_on (hide_cursor ∷ os) ms h n k = quiet_on os ms h n k
quiet_on (clear_screen ∷ os) ms h n k = quiet_on os ms h n k
quiet_on (shown f ∷ os) ms h n k = quiet_on os ms h n k

restore-IsOrdered : (n : ℕ) (u : Tui) → u.stopped ≡ true → IsOrdered u → IsOrdered (restore n u)
unfolding restore
restore-IsOrdered zero u q v = v
restore-IsOrdered (suc n) u q v = record {
  quiet = quiet_on u.terminal (clear_screen ∷ show_cursor ∷ []) v.quiet (refl, (refl, tt)) tt;
  not_yet = λ h. cc;
}

if-IsOrdered :
    (b : Bool) (u v : Tui)
    → (b ≡ true → IsOrdered u)
    → (b ≡ false → IsOrdered v)
    → IsOrdered (if b then u else v)
if-IsOrdered true u v f g = f refl
if-IsOrdered false u v f g = g refl

step-IsOrdered : (cfg : Config) (u : Tui) (e : Event) → IsOrdered u → IsOrdered (step cfg u e)
unfolding step
step-IsOrdered cfg u (tick now s) v =
    let f = (draw cfg now s u.last).1 in
    if-IsOrdered u.stopped u _ (λ q. v)
      (λ q.
        unfold drawn in
        record {
          quiet = quiet_before u.terminal (clear_screen ∷ shown f ∷ []) (v.not_yet q) tt;
          not_yet = λ h.
              All-append (λ o. is_cursor o ≡ false) u.terminal (clear_screen ∷ shown f ∷ [])
                (v.not_yet q) (refl, (refl, tt));
        })
step-IsOrdered cfg u goroutine_returns v =
    if-IsOrdered u.stop_closed _ u (λ q. record { quiet = v.quiet; not_yet = λ h. cc }) (λ q. v)
step-IsOrdered cfg u stop_call v = record { quiet = v.quiet; not_yet = v.not_yet }
step-IsOrdered cfg u call_goes_on v =
    unfold after_stopped in
    if-IsOrdered u.stopped (restore u.waiting u) u (λ q. restore-IsOrdered u.waiting u q v) (λ q. v)

run-IsOrdered : (cfg : Config) (u : Tui) (es : List Event) → IsOrdered u → IsOrdered (run cfg u es)
unfolding run
run-IsOrdered cfg u [] v = v
run-IsOrdered cfg u (e ∷ es) v = run-IsOrdered cfg (step cfg u e) es (step-IsOrdered cfg u e v)

-- Whatever ticks come, and whenever and however often the function that stops the UI is called: once a
-- call has shown the cursor again no frame is drawn any more, although a tick may still be taken after
-- the channel has been closed; and a call that goes on when the goroutine has returned clears the screen
-- and shows the cursor.
pub run-IsQuietAfter :
    (cfg : Config) (now : ℤ) (es : List Event)
    → IsQuietAfter (run cfg (start_standalone_tui now) es).terminal
      × ((run cfg
            (run cfg (start_standalone_tui now) es)
            (stop_call ∷ goroutine_returns ∷ call_goes_on ∷ [])).terminal
          ≡ (run cfg (start_standalone_tui now) es).terminal ++ (clear_screen ∷ show_cursor ∷ []))
run-IsQuietAfter cfg now es =
    let u = run cfg (start_standalone_tui now) es in
    (
      (run-IsOrdered cfg (start_standalone_tui now) es (
          unfold start_standalone_tui in
          record { quiet = tt; not_yet = λ h. (refl, (refl, tt)) })).quiet,
      stopped_for_good cfg u,
    )
  where
    stopped_for_good :
        (cfg : Config) (u : Tui)
        → (run cfg u (stop_call ∷ goroutine_returns ∷ call_goes_on ∷ [])).terminal
          ≡ u.terminal ++ (clear_screen ∷ show_cursor ∷ [])
    stopped_for_good cfg u = unfold run step after_stopped restore in refl
