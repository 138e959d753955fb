-- ===== src/Concurrency/LockManager/Rows.antt =====
-- The requests of one transaction for one row, and the invariant of the lock manager.
use zlchen_dsaa2031_project.Prelude.{
  ◌⊎◌, ℕ, ◌≤◌, ◌≡◌, ◌≢◌, refl, List, [], Bool, true, false, ◌==◌, arith, contains, lookup, insert,
  lookup-insert, if◌then◌else◌, subst, Bool-cases, inl, inr, sym, ◌∙◌,
}
use native.Mathlib.Decide.{ℕ_discrete}
use zlchen_dsaa2031_project.Concurrency.Transaction.{TransactionState, is_aborted, is_growing}
use zlchen_dsaa2031_project.Concurrency.Requests.{LockRequest, shared, exclusive}
use zlchen_dsaa2031_project.Concurrency.Requests.Own.{
  own, any_granted, granted_in, has_mode, ungranted,
}
use zlchen_dsaa2031_project.Concurrency.LockManager.{
  System, RequestQueue, Wait, running, in_shared, in_exclusive, in_upgrade, queue_or_new, update,
}

unfoldable pub own_row : List (ℕ × RequestQueue) → ℕ → ℕ → List LockRequest
own_row table r t = own t (queue_or_new (lookup r table)).request_queue

abbrev pub mine : System → ℕ → ℕ → List LockRequest
mine s r t = own_row s.lock_table r t

pub own_row-insert :
    (table : List (ℕ × RequestQueue)) (r r' : ℕ) (q : RequestQueue) (u : ℕ)
    → own_row (insert r q table) r' u
      ≡ (if r == r' then own u q.request_queue else own_row table r' u)
unfolding own_row
own_row-insert table r r' q u = ground (arith, lookup-insert r r' q table)

pub update_at {ℓ} : {A : Type ℓ} (g : ℕ → A) (i : ℕ) (a : A) → update g i a i ≡ a
update_at g i a = ground arith

-- The thread waits for this row.
abbrev pub on_row : Wait → ℕ → Bool
on_row running r = false
on_row (in_shared q) r = q == r
on_row (in_exclusive q) r = q == r
on_row (in_upgrade q) r = q == r

-- It waits there with a request that is not granted.
abbrev pub pending : Wait → ℕ → ℕ
pending running r = 0
pending (in_shared q) r = if q == r then 1 else 0
pending (in_exclusive q) r = if q == r then 1 else 0
pending (in_upgrade q) r = 0

-- How the state of a transaction, whether the row is in its shared and exclusive sets, where its
-- thread stands, and its requests for the row fit together.
pub record Fits (st : TransactionState) (in_s in_x : Bool) (w : Wait) (r : ℕ) (l : List LockRequest)
    : Type 0 where
  pub holds_exclusive : is_aborted st ≡ false → in_x ≡ true → granted_in exclusive l ≡ true
  pub holds_shared : is_aborted st ≡ false → in_s ≡ true → any_granted l ≡ true
  pub one_pending : ungranted l ≤ pending w r
  pub asks_shared :
      is_aborted st ≡ false
      → w ≡ in_shared r
      → (has_mode shared l ≡ true) × (granted_in shared l ≡ false)
  pub asks_exclusive :
      is_aborted st ≡ false
      → w ≡ in_exclusive r
      → (has_mode exclusive l ≡ true) × (granted_in exclusive l ≡ false)
  pub upgrades :
      is_aborted st ≡ false → w ≡ in_upgrade r → (granted_in exclusive l ≡ true) × (in_x ≡ false)
  pub no_trace : is_growing st ≡ true → on_row w r ≡ false → in_s ≡ false → in_x ≡ false → l ≡ []
  pub no_exclusive :
      is_growing st ≡ true → on_row w r ≡ false → in_x ≡ false → granted_in exclusive l ≡ false

abbrev pub FitsAt : System → ℕ → ℕ → Type 0
FitsAt s t r =
    Fits (s.txns t).state (contains r (s.txns t).shared_lock_set)
      (contains r (s.txns t).exclusive_lock_set) (s.waits t) r (mine s r t)

-- A granted exclusive request excludes the granted requests of others, but while its transaction
-- waits for its upgrade.
abbrev pub Excludes : System → ℕ → ℕ → ℕ → Type 0
Excludes s t u r =
    granted_in exclusive (mine s r t) ≡ true
    → any_granted (mine s r u) ≡ true
    → s.waits t ≡ in_upgrade r

pub record IsValid (s : System) : Type 0 where
  pub fits : (t r : ℕ) → FitsAt s t r
  pub excludes : (t u r : ℕ) → t ≢ u → Excludes s t u r

-- A state that is not aborted was not, and one that is growing was.
abbrev pub Ages : TransactionState → TransactionState → Type 0
Ages st st' =
    (is_aborted st' ≡ false → is_aborted st ≡ false)
    × (is_growing st' ≡ true → is_growing st ≡ true)

-- The thread does not wait for the row before or after, or stays where it is.
abbrev pub Away : Wait → Wait → ℕ → Type 0
Away w w' q = ((on_row w q ≡ false) × (on_row w' q ≡ false)) ⊎ (w' ≡ w)

-- A change of one transaction at one row.
pub record Local (s : System) (t r : ℕ) (s' : System) : Type 0 where
  pub txns_other : (u : ℕ) → t ≢ u → s'.txns u ≡ s.txns u
  pub waits_other : (u : ℕ) → t ≢ u → s'.waits u ≡ s.waits u
  pub mine_other : (u : ℕ) → t ≢ u → mine s' r u ≡ mine s r u
  pub rows_other : (q u : ℕ) → r ≢ q → mine s' q u ≡ mine s q u
  pub shared_other :
      (q : ℕ)
      → r ≢ q
      → contains q (s'.txns t).shared_lock_set ≡ contains q (s.txns t).shared_lock_set
  pub exclusive_other :
      (q : ℕ)
      → r ≢ q
      → contains q (s'.txns t).exclusive_lock_set ≡ contains q (s.txns t).exclusive_lock_set
  pub ages : Ages (s.txns t).state (s'.txns t).state
  pub place : (q : ℕ) → r ≢ q → Away (s.waits t) (s'.waits t) q

pending_elsewhere : (w : Wait) (r : ℕ) → on_row w r ≡ false → pending w r ≡ 0
pending_elsewhere running r h = refl
pending_elsewhere (in_shared q) r h = ground arith
pending_elsewhere (in_exclusive q) r h = ground arith
pending_elsewhere (in_upgrade q) r h = refl

-- A transaction fits as before at a row that the change is not about.
Fits-elsewhere :
    (st st' : TransactionState) (a b : Bool) (w w' : Wait) (r : ℕ) (l : List LockRequest)
    → Fits st a b w r l
    → Ages st st'
    → Away w w' r
    → Fits st' a b w' r l
Fits-elsewhere st st' a b w w' r l f age (inl (here, there)) = record {
  holds_exclusive = λ alive held. f.holds_exclusive (age.0 alive) held;
  holds_shared = λ alive held. f.holds_shared (age.0 alive) held;
  one_pending = omega (arith, f.one_pending, pending_elsewhere w r here);
  asks_shared = λ alive e. absurd (ground arith);
  asks_exclusive = λ alive e. absurd (ground arith);
  upgrades = λ alive e. absurd (ground arith);
  no_trace = λ young _ no_s no_x. f.no_trace (age.1 young) here no_s no_x;
  no_exclusive = λ young _ no_x. f.no_exclusive (age.1 young) here no_x;
}
Fits-elsewhere st st' a b w w' r l f age (inr same) = rw same (record {
  holds_exclusive = λ alive held. f.holds_exclusive (age.0 alive) held;
  holds_shared = λ alive held. f.holds_shared (age.0 alive) held;
  one_pending = f.one_pending;
  asks_shared = λ alive e. f.asks_shared (age.0 alive) e;
  asks_exclusive = λ alive e. f.asks_exclusive (age.0 alive) e;
  upgrades = λ alive e. f.upgrades (age.0 alive) e;
  no_trace = λ young away no_s no_x. f.no_trace (age.1 young) away no_s no_x;
  no_exclusive = λ young away no_x. f.no_exclusive (age.1 young) away no_x;
})

module _ (s : System) (t r : ℕ) (s' : System) (v : IsValid s) (c : Local s t r s') where
  fits_other : (u q : ℕ) → t ≢ u → mine s' q u ≡ mine s q u → FitsAt s' u q
  fits_other u q other same = rw (c.txns_other u other, c.waits_other u other, same) (v.fits u q)

  mine_same : (u q : ℕ) → t ≢ u → mine s' q u ≡ mine s q u
  mine_same u q other = elim (Bool-cases (r == q)) [
    | inl here ↦
        let e : r ≡ q = ground arith in
        subst (λ x. mine s' x u ≡ mine s x u) e (c.mine_other u other)
    | inr there ↦ c.rows_other q u (λ e. ground arith)
  ]

  fits_self : (q : ℕ) → r ≢ q → FitsAt s' t q
  fits_self q other =
      rw (c.shared_other q other, c.exclusive_other q other, c.rows_other q t other)
        (Fits-elsewhere _ _ _ _ _ _ _ _ (v.fits t q) c.ages (c.place q other))

  stays : (q : ℕ) → r ≢ q → s.waits t ≡ in_upgrade q → s'.waits t ≡ in_upgrade q
  stays q elsewhere e = elim (c.place q elsewhere) [
    | inl (here, there) ↦ absurd (ground arith)
    | inr same ↦ same ∙ e
  ]

  Excludes-other : (u w q : ℕ) → t ≢ u → t ≢ w → u ≢ w → Excludes s' u w q
  Excludes-other u w q away apart different =
      rw (mine_same u q away, mine_same w q apart, c.waits_other u away)
        (v.excludes u w q different)

  module _ (fits : FitsAt s' t r)
      (mine_first : (u : ℕ)
        → t ≢ u
        → granted_in exclusive (mine s' r t) ≡ true
        → any_granted (mine s r u) ≡ true
        → s'.waits t ≡ in_upgrade r)
      (other_first : (u : ℕ)
        → t ≢ u
        → granted_in exclusive (mine s r u) ≡ true
        → any_granted (mine s' r t) ≡ true
        → s.waits u ≡ in_upgrade r) where
    Excludes-mine : (w q : ℕ) → t ≢ w → Excludes s' t w q
    Excludes-mine w q apart x g = elim (ℕ_discrete r q) [
      | yes e ↦
          subst (λ k. s'.waits t ≡ in_upgrade k) e
            (mine_first w apart (ground (arith, e, x)) (ground (arith, e, g, mine_same w q apart)))
      | no elsewhere ↦ stays q elsewhere (
          v.excludes t w q apart (ground (arith, x, c.rows_other q t elsewhere))
            (ground (arith, g, mine_same w q apart)))
    ]

    Excludes-theirs : (u q : ℕ) → t ≢ u → Excludes s' u t q
    Excludes-theirs u q away x g = elim (ℕ_discrete r q) [
      | yes e ↦
          subst (λ k. s'.waits u ≡ in_upgrade k) e
            (rw (c.waits_other u away) (
              other_first u away (ground (arith, e, x, mine_same u q away)) (ground (arith, e, g))))
      | no elsewhere ↦ rw (c.waits_other u away) (
          v.excludes u t q (λ e. away (sym e)) (ground (arith, x, mine_same u q away))
            (ground (arith, g, c.rows_other q t elsewhere)))
    ]

    -- A local change keeps the invariant if its transaction still fits at its row, and its requests
    -- for the row and those of the others still exclude.
    pub Local-IsValid : IsValid s'
    Local-IsValid = record {
      fits = λ u q. elim (ℕ_discrete t u) [
        | yes e ↦
            subst (λ x. FitsAt s' x q) e
              (elim (ℕ_discrete r q) [
                | yes e' ↦ subst (λ x. FitsAt s' t x) e' fits
                | no elsewhere ↦ fits_self q elsewhere
              ])
        | no away ↦ fits_other u q away (mine_same u q away)
      ];
      excludes = λ u w q different. elim (ℕ_discrete t u) [
        | yes e ↦
            subst (λ x. Excludes s' x w q) e (Excludes-mine w q (λ e'. different (sym e ∙ e')))
        | no away ↦ elim (ℕ_discrete t w) [
          | yes e ↦ subst (λ x. Excludes s' u x q) e (Excludes-theirs u q away)
          | no apart ↦ Excludes-other u w q away apart different
        ]
      ];
    }
