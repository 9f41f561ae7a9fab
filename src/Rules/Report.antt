-- ===== src/Rules/Report.antt =====
-- The limit, the counters and the score of a report: Rules.antt.
use distribute_storage_log_a.Prelude.{
  ℕ, ◌+◌, ◌-◌, ◌*◌, ◌≡◌, ◌≤◌, refl, ap, ◌∙◌, false, List, [], ◌∷◌, String, length, take,
  if◌then◌else◌, ltb, ◌==◌, arith, Bool-cases, inl, inr, length-append, length-take,
}
use distribute_storage_log_a.Prelude.Int.{ℤ, pos, negsuc, ◌-ℤ◌, ltb_ℤ}
use distribute_storage_log_a.Prelude.Text.{str_eq, eq_iff}
use distribute_storage_log_a.Model.{DiagnosisEvent}
use distribute_storage_log_a.Store.Keys.{differ}
use distribute_storage_log_a.Rules.{
  max_events, merge_events, collect_events, counter, increment, severity_fatal, severity_critical,
  severity_warning, penalty, Totals, count_event, count_events, no_totals, summary_of,
  diagnose_directory,
}

merge_limit :
    (all events : List DiagnosisEvent) → length all ≤ 500 → length (merge_events all events) ≤ 500
unfolding merge_events
merge_limit all events h = elim (Bool-cases (ltb (length all) max_events)) [
  | inl e ↦
      let more = length-append all (take (max_events - length all) events) in
      let taken = length-take (max_events - length all) events in
      rw e (omega (arith, h, more, taken))
  | inr e ↦ rw e h
]

collect_limit :
    (results : List (List DiagnosisEvent)) (all : List DiagnosisEvent)
    → length all ≤ 500
    → length (collect_events results all) ≤ 500
unfolding collect_events
collect_limit [] all h = h
collect_limit (events ∷ rest) all h =
    collect_limit rest (merge_events all events) (merge_limit all events h)

-- How many events have a severity.
unfoldable pub count_of : String → List DiagnosisEvent → ℕ
count_of severity [] = 0
count_of severity (ev ∷ rest) =
    (if str_eq severity ev.severity then 1 else 0) + count_of severity rest

counter-increment :
    (key other : String) (m : List (String × ℕ))
    → counter key (increment other m) ≡ (if str_eq key other then 1 else 0) + counter key m
unfolding counter increment
counter-increment key other [] = ground (arith, Bool-cases (str_eq key other))
counter-increment key other ((k, n) ∷ rest) = elim (Bool-cases (str_eq other k)) [
  | inl e ↦
      let same : other ≡ k = (eq_iff other k).0 e in
      rw e (rw same (ground (arith, Bool-cases (str_eq key k))))
  | inr e ↦ elim (Bool-cases (str_eq key k)) [
    | inl p ↦
        let same : key ≡ k = (eq_iff key k).0 p in
        let off : str_eq key other ≡ false = ap (λ j. str_eq j other) same ∙ differ other k e in
        rw (e, p, off) (omega arith)
    | inr p ↦ rw (e, p) (counter-increment key other rest)
  ]
]

severity_counted :
    (severity : String) (events : List DiagnosisEvent) (t : Totals)
    → counter severity (count_events events t).severity_summary
      ≡ counter severity t.severity_summary + count_of severity events
unfolding count_events count_event count_of
severity_counted severity [] t = omega arith
severity_counted severity (ev ∷ rest) t = omega (
  arith,
  severity_counted severity rest (count_event ev t),
  counter-increment severity ev.severity t.severity_summary,
)

unfoldable pub penalties : List DiagnosisEvent → ℕ
penalties [] = 0
penalties (ev ∷ rest) = penalty ev.severity + penalties rest

twice_less : (a : ℤ) (x y : ℕ) → (a -ℤ pos x) -ℤ pos y ≡ a -ℤ pos (x + y)
unfolding ◌-ℤ◌
twice_less (pos n) x y = ground arith
twice_less (negsuc n) x y = ground arith

less_nothing : (a : ℤ) → a ≡ a -ℤ pos 0
unfolding ◌-ℤ◌
less_nothing (pos n) = ground arith
less_nothing (negsuc n) = ground arith

score_lem :
    (events : List DiagnosisEvent) (t : Totals)
    → (count_events events t).score ≡ t.score -ℤ pos (penalties events)
unfolding count_events penalties count_event
score_lem [] t = less_nothing t.score
score_lem (ev ∷ rest) t =
    score_lem rest (count_event ev t) ∙ twice_less t.score (penalty ev.severity) (penalties rest)

clipped :
    (x : ℕ) → (let s = pos 100 -ℤ pos x in if ltb_ℤ s (pos 0) then pos 0 else s) ≡ pos (100 - x)
unfolding ◌-ℤ◌
clipped x = ground arith

penalty_parts :
    (severity : String)
    → penalty severity
      ≡ 25 * (if str_eq severity_fatal severity then 1 else 0)
        + 10 * (if str_eq severity_critical severity then 1 else 0)
        + 3 * (if str_eq severity_warning severity then 1 else 0)
penalty_parts severity = elim (Bool-cases (str_eq severity severity_fatal)) [
  | inl e ↦ let same : severity ≡ severity_fatal = (eq_iff _ _).0 e in rw same refl
  | inr e ↦ elim (Bool-cases (str_eq severity severity_critical)) [
    | inl p ↦ let same : severity ≡ severity_critical = (eq_iff _ _).0 p in rw same refl
    | inr p ↦ elim (Bool-cases (str_eq severity severity_warning)) [
      | inl q ↦ let same : severity ≡ severity_warning = (eq_iff _ _).0 q in rw same refl
      | inr q ↦
          rw
            (
              e,
              p,
              q,
              differ severity severity_fatal e,
              differ severity severity_critical p,
              differ severity severity_warning q,
            )
            refl
    ]
  ]
]

penalties_parts :
    (events : List DiagnosisEvent)
    → penalties events
      ≡ 25 * count_of severity_fatal events
        + 10 * count_of severity_critical events
        + 3 * count_of severity_warning events
unfolding penalties count_of
penalties_parts [] = refl
penalties_parts (ev ∷ rest) = omega (arith, penalties_parts rest, penalty_parts ev.severity)

-- Whatever the files hold and however the workers take turns, a finished report holds at most 500
-- events, its counter of a severity is the number of its events of that severity, and its score is 100
-- less 25 for each fatal, 10 for each critical and 3 for each warning event, and never below 0.
pub diagnose_directory_lem :
    (files : ℕ) (results : List (List DiagnosisEvent)) (severity : String)
    → (files == 0) ≡ false
    → let report = diagnose_directory false files results in
      (length report.events ≤ 500)
      × ((counter severity report.severities ≡ count_of severity report.events)
          × (report.health_score
              ≡ pos (
                  100
                  - (25 * count_of severity_fatal report.events
                      + 10 * count_of severity_critical report.events
                      + 3 * count_of severity_warning report.events))))
unfolding diagnose_directory summary_of counter
diagnose_directory_lem files results severity some_file =
    let events : List DiagnosisEvent = collect_events results [] in
    let score : (if ltb_ℤ (count_events events no_totals).score (pos 0)
          then pos 0
          else (count_events events no_totals).score)
        ≡ pos (100 - penalties events) =
      ap (λ s. if ltb_ℤ s (pos 0) then pos 0 else s) (score_lem events no_totals)
      ∙ clipped (penalties events) in
    rw some_file (
      collect_limit results [] (omega arith),
      (
        (omega (arith, severity_counted severity events no_totals)),
        (score ∙ ap (λ x. pos (100 - x)) (penalties_parts events)),
      ),
    )
