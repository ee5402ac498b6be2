-- ===== src/Portfolio/Active/Rounds.antt =====
-- One portfolio, one round and the whole loop of `assign_active_symbols_no_overlap`: they return, and
-- a round that changes nothing leaves nothing to do.
use hft_lead_lag.Prelude.{
  ℕ, zero, suc, ◌+◌, ◌*◌, ◌<◌, ◌≡◌, refl, sym, ◌∙◌, ap, Bool, true, false, inl, inr, String, List,
  [], ◌∷◌, ◌++◌, some, none, Option, arith, string_key, if◌then◌else◌, Bool-cases, Option-cases,
  length, length-append, leb, subst,
}
use hft_lead_lag.Prelude.Maps.{lookup, contains}
use hft_lead_lag.Portfolio.Shortlist.{Lists}
use hft_lead_lag.Portfolio.Shortlist.Deal.{Among}
use hft_lead_lag.Portfolio.Active.{
  find_unused, Assigning, activate, assign_one, assign_round, assign_rounds,
}
use hft_lead_lag.Portfolio.Active.Totals.{
  size, size-le, size-insert, short_of_lookup, find_unused-some, find_unused-none,
}
use hft_lead_lag.Portfolio.Active.Invariant.{or_empty, IsAssigned, IsServed, activate-IsAssigned}

-- A step changes nothing since nothing is left to do, or it makes a symbol active.
data Change (st st' : Assigning) (Idle : Type 0) : Type 0 where
  idle : st' ≡ st → Idle → Change st st' Idle
  moved : st'.progressed ≡ true → size st.active_by_id < size st'.active_by_id → Change st st' Idle

record Outcome (shortlists : Lists) (ids : List String) (st : Assigning) (Idle : Type 0)
    (r : Option Assigning) : Type 0 where
  next : Assigning
  returns : r ≡ some next
  valid : IsAssigned shortlists ids next
  change : Change st next Idle

abbrev pub AllServed : Lists → Assigning → List String → Type 0
AllServed shortlists st [] = Unit {0}
AllServed shortlists st (k ∷ ks) = IsServed shortlists st k × AllServed shortlists st ks

assign_one-Outcome :
    (shortlists : Lists) (ids : List String) (st : Assigning) (id : String)
    → contains id ids ≡ true
    → IsAssigned shortlists ids st
    → Outcome shortlists ids st (IsServed shortlists st id) (assign_one shortlists id st)
unfolding assign_one
assign_one-Outcome shortlists ids st id h v = elim (Bool-cases (leb 4 (length l))) [
  | inl full ↦ record {
    next = st;
    returns = rw (e, full);
    valid = v;
    change = idle refl (l, e, inl (ground (arith, short_of_lookup id l st.active_by_id v.short e)));
  }
  | inr room ↦ elim (Option-cases (lookup id shortlists)) [
    | inl missing ↦ record {
      next = st;
      returns = rw (e, room, missing);
      valid = v;
      change = idle refl (l, e, inr (λ a i. absurd (nothing missing a i)));
    }
    | inr (shortlist, there) ↦ elim (Option-cases (find_unused st.used_symbols shortlist)) [
      | inl exhausted ↦ record {
        next = st;
        returns = rw (e, room, there, exhausted);
        valid = v;
        change = idle refl (
          l,
          e,
          inr (λ a i. find_unused-none st.used_symbols shortlist a exhausted (rw there at i)),
        );
      }
      | inr (s, fresh) ↦
          let f = find_unused-some st.used_symbols shortlist s fresh in
          record {
            next = activate st id l s;
            returns = rw (e, room, there, fresh);
            valid =
                activate-IsAssigned shortlists ids st id s l v e (ground arith) f.0 (rw there (f.1))
                  (v.listed id h).2;
            change = moved refl (
                omega (
                  arith,
                  size-insert id l (l ++ s ∷ []) st.active_by_id e,
                  length-append l (s ∷ []),
                ));
          }
    ]
  ]
]
  where
    l : List String
    l = (v.listed id h).0

    e : lookup id st.active_by_id ≡ some l
    e = (v.listed id h).1

    nothing :
        lookup id shortlists ≡ none
        → (a : String) → contains a (or_empty (lookup id shortlists)) ≡ true
        → ⊥
    nothing m a i = unfold contains in (let i' : contains a [] ≡ true = rw m at i in cc)

after_moved :
    (shortlists : Lists) (ids : List String) (st one : Assigning) (Idle Rest : Type 0)
    (r : Option Assigning)
    → one.progressed ≡ true
    → size st.active_by_id < size one.active_by_id
    → Outcome shortlists ids one Rest r
    → Outcome shortlists ids st Idle r
after_moved shortlists ids st one Idle Rest r p grow o = record {
  next = o.next;
  returns = o.returns;
  valid = o.valid;
  change = join o.change;
}
  where
    join : Change one o.next Rest → Change st o.next Idle
    join (idle e _) = rw e (moved p grow)
    join (moved q more) = moved q (omega arith)

after_idle :
    (shortlists : Lists) (ids : List String) (st : Assigning) (Here Rest : Type 0)
    (r : Option Assigning)
    → Here
    → Outcome shortlists ids st Rest r
    → Outcome shortlists ids st (Here × Rest) r
after_idle shortlists ids st Here Rest r here o = record {
  next = o.next;
  returns = o.returns;
  valid = o.valid;
  change = join o.change;
}
  where
    join : Change st o.next Rest → Change st o.next (Here × Rest)
    join (idle e rest) = idle e (here, rest)
    join (moved q more) = moved q more

assign_round-Outcome :
    (shortlists : Lists) (ids todo : List String) (st : Assigning)
    → Among todo ids
    → IsAssigned shortlists ids st
    → Outcome shortlists ids st (AllServed shortlists st todo) (assign_round shortlists todo st)
unfolding assign_round
assign_round-Outcome shortlists ids [] st h v = record {
  next = st;
  returns = refl;
  valid = v;
  change = idle refl tt;
}
assign_round-Outcome shortlists ids (id ∷ todo) st h v =
    let o = assign_one-Outcome shortlists ids st id h.0 v in
    join o (assign_round-Outcome shortlists ids todo st h.1 v)
      (assign_round-Outcome shortlists ids todo o.next h.1 o.valid) o.change
  where
    join :
        (o : Outcome shortlists ids st (IsServed shortlists st id) (assign_one shortlists id st))
        → Outcome shortlists ids st (AllServed shortlists st todo) (assign_round shortlists todo st)
        → Outcome shortlists ids o.next
            (AllServed shortlists o.next todo)
            (assign_round shortlists todo o.next)
        → Change st o.next (IsServed shortlists st id)
        → Outcome shortlists ids st
            (AllServed shortlists st (id ∷ todo))
            (assign_round shortlists (id ∷ todo) st)
    join o same other (idle e here) =
        let back : assign_one shortlists id st ≡ some st = o.returns ∙ ap some e in
        rw back (
          after_idle shortlists ids st (IsServed shortlists st id) (AllServed shortlists st todo) _
            here same)
    join o same other (moved p grow) = rw (o.returns) (
        after_moved shortlists ids st o.next (AllServed shortlists st (id ∷ todo))
          (AllServed shortlists o.next todo) _ p grow other)

abbrev begin : Assigning → Assigning
begin st = record st { progressed = false }

begin-IsAssigned :
    (shortlists : Lists) (ids : List String) (st : Assigning)
    → IsAssigned shortlists ids st
    → IsAssigned shortlists ids (begin st)
begin-IsAssigned shortlists ids st v = record {
  listed = v.listed;
  used = v.used;
  once = v.once;
  short = v.short;
  entries = v.entries;
}

-- The loop returns within its fuel, and leaves every portfolio served.
abbrev pub Finishes : ℕ → Lists → List String → Assigning → Type 0
Finishes f shortlists ids st =
    (st' : Assigning) × (assign_rounds f shortlists ids st ≡ some st')
    × IsAssigned shortlists ids st'
    × AllServed shortlists st' ids

assign_rounds-suc :
    (f : ℕ) (shortlists : Lists) (ids : List String) (st one : Assigning) (more : Bool)
    → assign_round shortlists ids (begin st) ≡ some one
    → one.progressed ≡ more
    → assign_rounds (suc f) shortlists ids st
      ≡ (if more then assign_rounds f shortlists ids one else some one)
unfolding assign_rounds
assign_rounds-suc f shortlists ids st one more e p =
    rw (e, assign_rounds) (ap (λ b. if b then assign_rounds f shortlists ids one else some one) p)

pub assign_rounds-Finishes :
    (f : ℕ) (shortlists : Lists) (ids : List String) (st : Assigning)
    → Among ids ids
    → IsAssigned shortlists ids st
    → length ids * 4 < f + size st.active_by_id
    → Finishes f shortlists ids st
assign_rounds-Finishes zero shortlists ids st h v b =
    absurd (omega (arith, size-le st.active_by_id v.short, v.entries))
assign_rounds-Finishes (suc f) shortlists ids st h v b =
    let o =
      assign_round-Outcome shortlists ids ids (begin st) h (begin-IsAssigned shortlists ids st v) in
    join o (assign_rounds-Finishes f shortlists ids o.next h o.valid) o.change
  where
    join :
        (o : Outcome shortlists ids
          (begin st)
          (AllServed shortlists (begin st) ids)
          (assign_round shortlists ids (begin st)))
        → (length ids * 4 < f + size o.next.active_by_id → Finishes f shortlists ids o.next)
        → Change (begin st) o.next (AllServed shortlists (begin st) ids)
        → Finishes (suc f) shortlists ids st
    join o ih (idle e served) = (
      o.next,
      assign_rounds-suc f shortlists ids st o.next false o.returns (ap (λ x. x.progressed) e),
      o.valid,
      subst (λ x. AllServed shortlists x ids) (sym e) served,
    )
    join o ih (moved p grow) =
        let rest = ih (omega arith) in
        (
          rest.0,
          assign_rounds-suc f shortlists ids st o.next true o.returns p ∙ rest.1,
          rest.2,
          rest.3,
        )
