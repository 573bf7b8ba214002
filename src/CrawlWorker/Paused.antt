-- ===== src/CrawlWorker/Paused.antt =====
-- A source that is paused is left alone until it is resumed.
use news_crawl_intelligence.Prelude.{
  ℕ, ◌≡◌, refl, ◌==◌, ==_iff, ◌&&◌, not, Bool, true, false, String, List, [], ◌∷◌, Option, none,
  some, filter, any, All, arith, if_cases,
}
use news_crawl_intelligence.CrawlWorker.{Source, is_paused, crawl_sources}
use news_crawl_intelligence.CrawlWorker.Signals.{
  ControlAction, ControlSignal, WorkerState, on_action, on_control, on_controls, resume_source,
  pause_source, is_for,
}

abbrev is_source : Option ℕ → ℕ → Bool
is_source none s = false
is_source (some t) s = t == s

abbrev resumes_by : ControlAction → Bool
resumes_by ControlAction.resume = true
resumes_by ControlAction.cancel = true
resumes_by _ = false

-- Whether a signal takes back the pause of a source.
abbrev pub resumes : ℕ → ControlSignal → Bool
resumes s signal = resumes_by signal.action && is_source signal.source_id s

any-other :
    (s t : ℕ) (paused : List ℕ)
    → (t == s) ≡ false
    → any (λ p. p == s) paused ≡ true
    → any (λ p. p == s) (filter (λ p. not (p == t)) paused) ≡ true
unfolding any filter
any-other s t [] other h = h
any-other s t (p ∷ paused) other h =
    ground (arith, other, h, ==_iff p s, ==_iff p t, ==_iff t s, any-other s t paused other)

resume_source-is_paused :
    (s : ℕ) (source : Option ℕ) (w : WorkerState)
    → is_source source s ≡ false
    → is_paused w s ≡ true
    → is_paused (resume_source source w) s ≡ true
unfolding is_paused
resume_source-is_paused s none w other h = h
resume_source-is_paused s (some t) w other h = any-other s t w.paused_sources other h

on_action-is_paused :
    (worker_id : String) (s : ℕ) (signal : ControlSignal) (action : ControlAction) (w : WorkerState)
    → (resumes_by action && is_source signal.source_id s) ≡ false
    → is_paused w s ≡ true
    → is_paused (on_action worker_id signal action w) s ≡ true
unfolding is_paused any
on_action-is_paused worker_id s signal ControlAction.shutdown w other h =
    if_cases (λ (v : WorkerState). is_paused v s ≡ true) (is_for worker_id signal.worker_id)
      (λ _. h) (λ _. h)
on_action-is_paused worker_id s signal ControlAction.pause w other h = pauses signal.source_id
  where
    pauses : (source : Option ℕ) → is_paused (pause_source source w) s ≡ true
    pauses none = h
    pauses (some t) = ground (arith, h)
on_action-is_paused worker_id s signal ControlAction.resume w other h =
    resume_source-is_paused s signal.source_id w other h
on_action-is_paused worker_id s signal ControlAction.cancel w other h =
    resume_source-is_paused s signal.source_id w other h

on_controls-is_paused :
    (worker_id : String) (s : ℕ) (signals : List ControlSignal) (w : WorkerState)
    → All (λ c. resumes s c ≡ false) signals
    → is_paused w s ≡ true
    → is_paused (on_controls worker_id signals w) s ≡ true
unfolding on_controls on_control
on_controls-is_paused worker_id s [] w other h = h
on_controls-is_paused worker_id s (c ∷ signals) w other h =
    on_controls-is_paused worker_id s signals (on_control worker_id c w) other.1
      (on_action-is_paused worker_id s c c.action w other.0 h)

-- A source that is paused when a pass begins, and for which no signal comes in that resumes or
-- cancels it, is not crawled in this pass, and is paused after it.
pub crawl_sources_skips :
    (worker_id : String) (s : ℕ) (w : WorkerState) (sources : List (Source × List ControlSignal))
    → is_paused w s ≡ true
    → All (λ p. All (λ c. resumes s c ≡ false) p.1) sources
    → (any (λ source. source.id == s) (crawl_sources worker_id w sources).0 ≡ false)
      × (is_paused (crawl_sources worker_id w sources).1 s ≡ true)
unfolding crawl_sources any
crawl_sources_skips worker_id s w [] h none_resumes = (refl, h)
crawl_sources_skips worker_id s w ((source, signals) ∷ sources) h none_resumes =
    let now = on_controls worker_id signals w in
    let held = on_controls-is_paused worker_id s signals w none_resumes.0 h in
    let rest = crawl_sources_skips worker_id s now sources held none_resumes.1 in
    let good = λ (r : List Source × WorkerState).
      (any (λ source. source.id == s) r.0 ≡ false) × (is_paused r.1 s ≡ true) in
    if_cases good now.should_stop (λ _. (refl, held))
      (λ _.
        if_cases good (is_paused now source.id) (λ _. rest)
          (λ free. (ground (arith, free, held, rest.0, ==_iff source.id s), rest.1)))
