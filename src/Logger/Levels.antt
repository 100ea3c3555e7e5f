-- ===== src/Logger/Levels.antt =====
-- Logging only adds to the trace.
use objectlink_core_cpp.Prelude.{
  ℕ, ◌≡◌, refl, List, [], ◌∷◌, ◌++◌, Option, none, some, Str, ap, sym,
}
use mathlib.Core.List.{append-nil}
use objectlink_core_cpp.Exec.{ok}
use objectlink_core_cpp.Types.{LogLevel}
use objectlink_core_cpp.World.{World, Event, logged}
use objectlink_core_cpp.World.Writes.{texts, Writes, trace-Writes}
use objectlink_core_cpp.Logger.{Logger, join, log_target, emit_to, emit_log}

-- The event of a log message, if it is logged.
log_event : Option ℕ → LogLevel → List Str → List Event
log_event none level params = []
log_event (some func) level params = logged func level (join params) ∷ []

pub log_events : Logger → LogLevel → List Str → List Event
unfolding log_event
log_events l level params = log_event (log_target l level) level params

module _ {N R : Type 0} (level : LogLevel) (params : List Str) (w : World N R) where
  emit_to_lem :
      (target : Option ℕ)
      → emit_to target level params w
        ≡ (ok tt, record w { trace = w.trace ++ log_event target level params })
  unfolding emit_to log_event
  emit_to_lem none =
      ap (λ (t : List Event). (ok tt, record w { trace = t })) (sym (append-nil w.trace))
  emit_to_lem (some func) = refl

  -- A log message is an event at most, and never an exception.
  pub emit_log_lem :
      (l : Logger)
      → emit_log l level params w
        ≡ (ok tt, record w { trace = w.trace ++ log_events l level params })
  unfolding emit_log log_events
  emit_log_lem l = emit_to_lem (log_target l level)

log_event-texts :
    (func : ℕ) (target : Option ℕ) (level : LogLevel) (params : List Str)
    → texts func (log_event target level params) ≡ []
unfolding log_event texts
log_event-texts func none level params = refl
log_event-texts func (some f) level params = refl

-- Logging writes no text to the network.
pub log-Writes :
    {N R : Type 0} (func : ℕ) (logger : World N R → Logger) (level : LogLevel) (params : List Str)
    (w : World N R)
    → Writes func (λ v. emit_log (logger v) level params v) w []
unfolding log_events
log-Writes func logger level params w =
    let l = logger w in
    trace-Writes func (λ v. emit_log (logger v) level params v) w (log_events l level params) []
      (emit_log_lem level params w l) (log_event-texts func (log_target l level) level params)
