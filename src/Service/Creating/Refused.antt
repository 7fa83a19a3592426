-- ===== src/Service/Creating/Refused.antt =====
-- The hash of an approved plan, as CreateQuest of internal/service/standard_quest.go checks it.
use resy_snipe.Service.Creating.Ends.{CreateEnd, create-runs, create_ends}
use resy_snipe.Planner.Build.Hash.{build_plan_hash_drifts}
use resy_snipe.Planner.Build.{build_plan}
use resy_snipe.Service.Errors.{error_code_for}
use resy_snipe.Domain.Plan.Injective.{IsReadable}
use resy_snipe.Prelude.Results.{ok, bind_ok, map_err, ok_inj, map_err-ok}
use resy_snipe.Planner.Strategy.{Note, calendar_shows_bookable}
use resy_snipe.Domain.Intent.{Venue}
use resy_snipe.Domain.Plan.{Plan, canonical_bytes}
use resy_snipe.Prelude.{
  String, ◌≡◌, some, ◌≢◌, true, sym, ◌∙◌, subst, not, ap, str_eq, Bool-cases, false, inl,
  str_eq_iff, inr, none, refl,
}
use resy_snipe.Domain.Dates.{Time}
use resy_snipe.Service.Creating.{
  CreateCall, after_plan, finish, hash_differs, hash_mismatch, create_gate, create, audit_created,
}
use resy_snipe.Domain.Goal.{Goal, validate}
use resy_snipe.Service.State.{ServiceEnv, ServiceState, audit, proceed}
use resy_snipe.Service.Planning.{plan_input, plan_outcome, resolved, plan_quest, action_quest_plan}

-- What a plan that was made is made of.
record IsPlanned (env : ServiceEnv) (goal : Goal) (now : Time) (p : Plan Note) : Type 0 where
  venue : Venue
  valid : validate env.hostname env.utc goal now ≡ ok tt
  found : resolved env goal.venue_query ≡ ok venue
  built : build_plan env.formats (plan_input env goal now venue) ≡ ok p

plan_outcome-IsPlanned :
    (env : ServiceEnv) (goal : Goal) (now : Time) (p : Plan Note)
    → plan_outcome env goal now ≡ ok p
    → IsPlanned env goal now p
unfolding plan_outcome
plan_outcome-IsPlanned env goal now p h =
    let (u, checked, more) = bind_ok (map_err _ (validate env.hostname env.utc goal now)) _ h in
    let (venue, found, last) = bind_ok (resolved env goal.venue_query) _ more in
    record {
      venue = venue;
      valid = map_err-ok _ (validate env.hostname env.utc goal now) checked;
      found = found;
      built = map_err-ok _ (build_plan env.formats (plan_input env goal now venue)) last;
    }

-- The calendar shows the wanted date as bookable, at the venue that the query resolves to.
abbrev pub ShowsBookable : ServiceEnv → Goal → Type 0
ShowsBookable env goal =
    (now : Time) (venue : Venue)
    → resolved env goal.venue_query ≡ ok venue
    → calendar_shows_bookable (plan_input env goal now venue).calendar_snapshot.days goal.date
      ≡ true

-- Two plans of one goal, made at different instants, have different hashes.
replanned_differs :
    (env : ServiceEnv) (goal : Goal) (now now' : Time) (p p' : Plan Note)
    → IsReadable env.formats
    → (env.formats.sha256_hex (canonical_bytes env.formats p)
          ≡ env.formats.sha256_hex (canonical_bytes env.formats p')
        → canonical_bytes env.formats p ≡ canonical_bytes env.formats p')
    → ShowsBookable env goal
    → plan_outcome env goal now ≡ ok p
    → plan_outcome env goal now' ≡ ok p'
    → now ≢ now'
    → p.hash ≢ p'.hash
unfolding plan_input
replanned_differs env goal now now' p p' readable no_collision shown planned planned' ne =
    let a = plan_outcome-IsPlanned env goal now p planned in
    let b = plan_outcome-IsPlanned env goal now' p' planned' in
    let one : b.venue ≡ a.venue = ok_inj (sym b.found ∙ a.found) in
    build_plan_hash_drifts env.formats (plan_input env goal now a.venue) now' p p' readable
      no_collision (shown now a.venue a.found) a.built
      (subst (λ v. build_plan env.formats (plan_input env goal now' v) ≡ ok p') one b.built) ne

text_differs : (a b : String) → a ≢ b → not (str_eq a b) ≡ true
text_differs a b ne = elim (Bool-cases (str_eq a b)) [
  | inl same ↦ absurd (ne ((str_eq_iff a b).0 same))
  | inr other ↦ rw other refl
]

hash_differs-approved :
    (c : CreateCall) (approved hash : String)
    → c.opts.plan_hash ≡ some approved
    → approved ≢ hash
    → hash_differs c.opts.plan_hash hash ≡ true
hash_differs-approved c approved hash approves ne =
    ap (λ o. hash_differs o hash) approves ∙ text_differs approved hash ne

plan_quest-answer :
    (env : ServiceEnv) (user : String) (goal : Goal) (now : Time) (s : ServiceState) (p : Plan Note)
    → str_eq user "" ≡ false
    → plan_outcome env goal now ≡ ok p
    → (s0 : ServiceState) × (plan_quest env user goal now s ≡ (ok p, s0))
unfolding plan_quest
plan_quest-answer env user goal now s p named planned =
    (audit user action_quest_plan p.hash none s, rw (named, planned) refl)

refused_end :
    (env : ServiceEnv) (c : CreateCall) (p : Plan Note) (s : ServiceState)
    → hash_differs c.opts.plan_hash p.hash ≡ true
    → after_plan env c (ok p, s) ≡ finish env c "" (some (hash_mismatch env c p)) s
refused_end env c p s h = rw h refl

-- When the calendar shows the wanted date as bookable, CreateQuest refuses the hash that PlanQuest gave
-- for the same goal at any other instant, with a plan hash mismatch; no quest is stored and the engine
-- is not called. A time stamp is assumed to be readable back where it stands, and the digest not to
-- collide on the two plans.
pub create_refuses_earlier_plan :
    (env : ServiceEnv) (c : CreateCall) (s : ServiceState) (planned_then : Time) (p p' : Plan Note)
    → IsReadable env.formats
    → (env.formats.sha256_hex (canonical_bytes env.formats p)
          ≡ env.formats.sha256_hex (canonical_bytes env.formats p')
        → canonical_bytes env.formats p ≡ canonical_bytes env.formats p')
    → ShowsBookable env c.goal
    → str_eq c.user "" ≡ false
    → create_gate env c s ≡ proceed
    → plan_outcome env c.goal planned_then ≡ ok p
    → plan_outcome env c.goal c.plan_now ≡ ok p'
    → c.opts.plan_hash ≡ some p.hash
    → planned_then ≢ c.plan_now
    → ((create env c s).0 ≡ ("", some (hash_mismatch env c p')))
      × (error_code_for (hash_mismatch env c p').kind ≡ "invalid_plan_hash")
      × CreateEnd env c s.quest_db.quests s.engine
          ("", some (hash_mismatch env c p'))
          (create env c s).1.quest_db.quests
          (create env c s).1.engine
unfolding hash_mismatch error_code_for finish
create_refuses_earlier_plan env c s planned_then p p' readable no_collision shown named free planned
      planned' approves ne =
    let differs =
      replanned_differs env c.goal planned_then c.plan_now p p' readable no_collision shown planned
        planned' ne in
    let refused = hash_differs-approved c p.hash p'.hash approves differs in
    let (s0, replanned) = plan_quest-answer env c.user c.goal c.plan_now s p' named planned' in
    let stopped = refused_end env c p' s0 refused in
    let runs =
      create-runs env c s named free
      ∙ ap (λ x. audit_created c (after_plan env c x)) replanned
      ∙ ap (audit_created c) stopped in
    let answer : (create env c s).0 ≡ ("", some (hash_mismatch env c p')) = ap (λ o. o.0) runs in
    (
      answer,
      refl,
      subst
          (λ a.
            CreateEnd env c s.quest_db.quests s.engine a (create env c s).1.quest_db.quests
              (create env c s).1.engine)
          answer (create_ends env c s named free),
    )
