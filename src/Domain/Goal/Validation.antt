-- ===== src/Domain/Goal/Validation.antt =====
-- What a goal that passes validation satisfies (internal/domain/goal.go).
use resy_snipe.Prelude.Results.{ok, err≢ok, guard_last}
use resy_snipe.Domain.Goal.{
  Goal, validate, VenueQuery, validate_venue_query, today_start, window_is_zero, non_positive,
  TimePriority, TimeWindow, is_resy_host, url_query, is_priority_none, priority_none, earlier,
  later, slug_query, name_query, venue_query_host, venue_query_missing, invalid_venue_url,
}
use resy_snipe.Prelude.Texts.{Text, codes, is_empty, trim_space, text_eq_iff, to_lower}
use resy_snipe.Prelude.{
  suc, ℕ, ◌+◌, ◌*◌, ◌<◌, ◌≡◌, ◌↔◌, true, arith, Option, some, str_eq_iff, ◌≢◌, false, ◌≤◌,
  Option-cases, inl, inr, zero, refl, ◌⊎◌, Bool-cases, and_iff, ap, or_iff, sym, ◌∙◌, refuted_iff,
}
use resy_snipe.Domain.Dates.{
  WallTime, wall_time_after, Location, Time, date_is_zero, negsuc, pos, ℤ, Date, midnight, wall_eq,
}

-- A wall time that ParseWallTime can return.
pub record IsWallTime (w : WallTime) : Type 0 where
  pub minutes : w.min < 60
  pub seconds : w.sec < 60

abbrev pub seconds_of_day : WallTime → ℕ
seconds_of_day w = w.hour * 3600 + w.min * 60 + w.sec

-- On wall times in range, the field by field comparison is the order of the seconds of the day.
pub wall_time_after-seconds_of_day :
    (a b : WallTime)
    → IsWallTime a
    → IsWallTime b
    → (wall_time_after a b ≡ true) ↔ (seconds_of_day b < seconds_of_day a)
unfolding wall_time_after
wall_time_after-seconds_of_day a b va vb = (λ h. ground arith, λ h. ground arith)

positive_party : (p : ℤ) → non_positive p ≡ false → (n : ℕ) × (p ≡ pos (suc n))
positive_party (pos zero) h = cc
positive_party (pos (suc n)) h = (n, refl)
positive_party (negsuc n) h = cc

abbrev pub IsMidnight : WallTime → Type 0
IsMidnight w = (w.hour ≡ 0) × (w.min ≡ 0) × (w.sec ≡ 0)

-- Field by field, the first is at the second or before it.
abbrev IsNoLater : WallTime → WallTime → Type 0
IsNoLater a b =
    (a.hour < b.hour)
    ⊎ ((a.hour ≡ b.hour) × ((a.min < b.min) ⊎ ((a.min ≡ b.min) × (a.sec ≤ b.sec))))

-- The fields of the zero window.
abbrev IsBlank : TimeWindow → Type 0
IsBlank w = (IsMidnight w.start × IsMidnight w.end) × (w.priority ≡ priority_none)

pub wall_eq-IsMidnight : (w : WallTime) → (wall_eq w midnight ≡ true) ↔ IsMidnight w
wall_eq-IsMidnight w = (λ h. ground (arith, h), λ h. ground (arith, h))

is_priority_none-eq : (p : TimePriority) → (is_priority_none p ≡ true) ↔ (p ≡ priority_none)
is_priority_none-eq priority_none = (λ h. refl, λ h. refl)
is_priority_none-eq earlier = (λ h. cc, λ h. ap is_priority_none h)
is_priority_none-eq later = (λ h. cc, λ h. ap is_priority_none h)

is_resy_host-cases :
    (host : Text)
    → (is_resy_host host ≡ true) ↔ ((host ≡ codes "resy.com") ⊎ (host ≡ codes "www.resy.com"))
is_resy_host-cases host =
    or_iff _ _ (text_eq_iff host (codes "resy.com")) (text_eq_iff host (codes "www.resy.com"))

window_is_zero-IsBlank : (w : TimeWindow) → (window_is_zero w ≡ true) ↔ IsBlank w
window_is_zero-IsBlank w =
    and_iff _ _ (and_iff _ _ (wall_eq-IsMidnight w.start) (wall_eq-IsMidnight w.end))
      (is_priority_none-eq w.priority)

wall_time_after-IsNoLater : (a b : WallTime) → (wall_time_after a b ≡ false) ↔ IsNoLater a b
unfolding wall_time_after
wall_time_after-IsNoLater a b = (λ h. ground (arith, h), λ h. ground (arith, h))

date_is_zero-unset :
    (d : Date) → (date_is_zero d ≡ false) ↔ ((d.year ≡ 0) × (d.month ≡ 0) × (d.day ≡ 0) → ⊥)
date_is_zero-unset d = refuted_iff (date_is_zero d) (λ h. ground (arith, h), λ h. ground (arith, h))

module _ (hostname : Text → Option Text) (utc : Location) where
  -- A query that names something: an address that parses with a host of Resy in any case, a slug
  -- and a city, or a name, none of them blank.
  abbrev pub IsQuery : VenueQuery → Type 0
  IsQuery (url_query url) =
      (is_empty (trim_space url) ≡ false)
      × (host : Text) × (hostname url ≡ some host)
      × ((to_lower host ≡ codes "resy.com") ⊎ (to_lower host ≡ codes "www.resy.com"))
  IsQuery (slug_query slug city) =
      (is_empty (trim_space slug) ≡ false) × (is_empty (trim_space city) ≡ false)
  IsQuery (name_query name) = is_empty (trim_space name) ≡ false

  validate_venue_query-IsQuery :
      (q : VenueQuery) → (validate_venue_query hostname utc q ≡ ok tt) ↔ IsQuery q
  unfolding validate_venue_query
  validate_venue_query-IsQuery (url_query url) = (
    λ h. elim (Bool-cases (is_empty (trim_space url))) [
      | inl blank ↦ absurd (err≢ok {e = venue_query_missing} (sym (rw blank refl) ∙ h))
      | inr given ↦ elim (Option-cases (hostname url)) [
        | inl bad ↦ absurd (err≢ok {e = invalid_venue_url} (sym (rw (given, bad) refl) ∙ h))
        | inr (host, parsed) ↦ (
          given,
          host,
          parsed,
          (is_resy_host-cases (to_lower host)).0
              (guard_last (is_resy_host (to_lower host)) venue_query_host
                (sym (rw (given, parsed) refl) ∙ h)).0,
        )
      ]
    ],
    λ q. rw (q.0, q.2, (is_resy_host-cases (to_lower q.1)).1 q.3) refl,
  )
  validate_venue_query-IsQuery (slug_query slug city) =
      (λ h. ground (arith, h), λ h. ground (arith, h))
  validate_venue_query-IsQuery (name_query name) = (λ h. ground (arith, h), λ h. ground (arith, h))

  -- The conditions on a goal, one for each of the errors of Validate.
  pub record IsAcceptable (g : Goal) (now : Time) : Type 0 where
    pub query : (q : VenueQuery) × (g.venue_query ≡ some q) × IsQuery q
    pub account : g.account_id ≢ ""
    pub dated : (g.date.year ≡ 0) × (g.date.month ≡ 0) × (g.date.day ≡ 0) → ⊥
    pub on_time : utc.moment (utc.civil now).0 midnight ≤ utc.moment g.date midnight
    pub party : (n : ℕ) × (g.party ≡ pos (suc n))
    pub window : IsBlank g.time_prefs → ⊥
    pub ordered : IsNoLater g.time_prefs.start g.time_prefs.end

  accepted : (g : Goal) (now : Time) → validate hostname utc g now ≡ ok tt → IsAcceptable g now
  unfolding validate today_start
  accepted g now h = record {
    query = elim (Option-cases g.venue_query) [
      | inl e ↦ absurd (ground arith)
      | inr (q, e) ↦ (q, e, (validate_venue_query-IsQuery q).0 (ground arith))
    ];
    account = ground (arith, str_eq_iff g.account_id "");
    dated = (date_is_zero-unset g.date).0 (ground arith);
    on_time = ground arith;
    party = positive_party g.party (ground arith);
    window =
        (refuted_iff (window_is_zero g.time_prefs) (window_is_zero-IsBlank g.time_prefs)).0
          (ground arith);
    ordered = (wall_time_after-IsNoLater g.time_prefs.start g.time_prefs.end).0 (ground arith);
  }

  accepts : (g : Goal) (now : Time) → IsAcceptable g now → validate hostname utc g now ≡ ok tt
  unfolding validate today_start
  accepts g now v =
      let query = (validate_venue_query-IsQuery v.query.0).1 v.query.2 in
      let dated = (date_is_zero-unset g.date).1 v.dated in
      let window =
        (refuted_iff (window_is_zero g.time_prefs) (window_is_zero-IsBlank g.time_prefs)).1
          v.window in
      let ordered = (wall_time_after-IsNoLater g.time_prefs.start g.time_prefs.end).1 v.ordered in
      ground (arith, str_eq_iff g.account_id "", query, dated, window, ordered)

  -- Validation passes exactly the goals that meet all of the conditions: a venue query that is not
  -- blank, and whose host is one of the two of Resy where it is an address, an account, a date that
  -- is set and not before today in UTC, a positive party, and a time window that is set and not
  -- inverted.
  pub validate-IsAcceptable :
      (g : Goal) (now : Time) → (validate hostname utc g now ≡ ok tt) ↔ IsAcceptable g now
  validate-IsAcceptable g now = (accepted g now, accepts g now)
