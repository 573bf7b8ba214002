-- ===== src/CrawlWorker/Signals.antt =====
-- The control signals: their JSON form, and what a worker does with them.
use news_crawl_intelligence.Prelude.{
  ℕ, ◌==◌, not, Bool, true, String, List, [], ◌∷◌, Option, none, some, filter, str_eq,
  if◌then◌else◌,
}

pub data ControlAction : Type 0 where
  pause resume cancel shutdown : ControlAction

pub record ControlSignal : Type 0 where
  pub action : ControlAction
  pub job_id : Option ℕ
  pub source_id : Option ℕ
  pub worker_id : Option String

abbrev action_value : ControlAction → String
action_value ControlAction.pause = "pause"
action_value ControlAction.resume = "resume"
action_value ControlAction.cancel = "cancel"
action_value ControlAction.shutdown = "shutdown"

-- `ControlAction(value)`; `none` is a ValueError.
unfoldable pub action_of : String → Option ControlAction
action_of value =
    if str_eq value "pause"
    then some ControlAction.pause
    else if str_eq value "resume"
    then some ControlAction.resume
    else if str_eq value "cancel"
    then some ControlAction.cancel
    else if str_eq value "shutdown"
    then some ControlAction.shutdown
    else none

-- The members of the JSON object; null, and an absent member, are `none`.
pub record SignalJson : Type 0 where
  pub action : String
  pub job_id : Option String
  pub source_id : Option String
  pub worker_id : Option String

-- JSON, and the texts of UUIDs; `none` is an error of these functions, or of a member that is missing.
pub record SignalCodec : Type 0 where
  pub dumps : SignalJson → String
  pub loads : String → Option SignalJson
  pub show : ℕ → String
  pub read : String → Option ℕ

module _ (codec : SignalCodec) where
  open codec use {dumps, loads, show, read}

  abbrev shown : Option ℕ → Option String
  shown none = none
  shown (some id) = some (show id)

  abbrev as_json : ControlSignal → SignalJson
  as_json signal = record {
    action = action_value signal.action;
    job_id = shown signal.job_id;
    source_id = shown signal.source_id;
    worker_id = signal.worker_id;
  }

  unfoldable pub to_json : ControlSignal → String
  to_json signal = dumps (as_json signal)

  abbrev just : Option ℕ → Option (Option ℕ)
  just none = none
  just (some id) = some (some id)

  -- A UUID that is given, if the text is not empty.
  abbrev read_id : Option String → Option (Option ℕ)
  read_id none = some none
  read_id (some text) = if str_eq text "" then some none else just (read text)

  abbrev signal_of :
      Option ControlAction
      → Option (Option ℕ)
      → Option (Option ℕ)
      → Option String
      → Option ControlSignal
  signal_of (some action) (some job_id) (some source_id) worker_id =
      some
        (record { action = action; job_id = job_id; source_id = source_id; worker_id = worker_id })
  signal_of _ _ _ worker_id = none

  abbrev signal_in : Option SignalJson → Option ControlSignal
  signal_in none = none
  signal_in (some data_) =
      signal_of (action_of data_.action) (read_id data_.job_id) (read_id data_.source_id)
        data_.worker_id

  unfoldable pub from_json : String → Option ControlSignal
  unfolding action_of
  from_json raw = signal_in (loads raw)

-- The flag of the shutdown, and the sources that are paused.
pub record WorkerState : Type 0 where
  pub should_stop : Bool
  pub paused_sources : List ℕ

abbrev pub is_for : String → Option String → Bool
is_for worker_id none = true
is_for worker_id (some target) = str_eq target worker_id

abbrev pub pause_source : Option ℕ → WorkerState → WorkerState
pause_source none w = w
pause_source (some s) w = record w { paused_sources = s ∷ w.paused_sources }

abbrev pub resume_source : Option ℕ → WorkerState → WorkerState
resume_source none w = w
resume_source (some s) w = record w { paused_sources = filter (λ p. not (p == s)) w.paused_sources }

abbrev pub on_action : String → ControlSignal → ControlAction → WorkerState → WorkerState
on_action worker_id signal ControlAction.shutdown w =
    if is_for worker_id signal.worker_id then record w { should_stop = true } else w
on_action worker_id signal ControlAction.pause w = pause_source signal.source_id w
on_action worker_id signal ControlAction.resume w = resume_source signal.source_id w
on_action worker_id signal ControlAction.cancel w = resume_source signal.source_id w

unfoldable pub on_control : String → ControlSignal → WorkerState → WorkerState
unfolding filter
on_control worker_id signal w = on_action worker_id signal signal.action w

unfoldable pub on_controls : String → List ControlSignal → WorkerState → WorkerState
unfolding on_control
on_controls worker_id [] w = w
on_controls worker_id (signal ∷ signals) w =
    on_controls worker_id signals (on_control worker_id signal w)
