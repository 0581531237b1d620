-- ===== src/Controllers/Headroom/Priority.antt =====
-- pkg/controllers/headroom/controller.go: ensurePriorityClass and checkPriorityClassDrift.
-- What the API server answers to Create and Get is a parameter; the warnings of the log are a list.
use karpenter_provider_rafay.Prelude.{
  ℤ, pos, negsuc, ◌≡◌, refl, ap, ◌⊎◌, inl, inr, String, Bool, true, false, List, [], ◌∷◌, ◌++◌,
  Option, none, some, nat_eq, ◌==◌, eq_iff, if◌then◌else◌, Bool-cases, arith,
}

pub record PriorityClass : Type 0 where
  pub value : ℤ
  pub global_default : Bool
  pub preemption_policy : Option String

abbrev pub priority_value : ℤ
priority_value = negsuc 999

abbrev pub preempt_never : String
preempt_never = "Never"

-- The class that ensurePriorityClass creates.
abbrev pub headroom_class : PriorityClass
headroom_class = record {
  value = priority_value;
  global_default = false;
  preemption_policy = some preempt_never;
}

pub data CreateReply : Type 0 where
  class_created already_exists : CreateReply
  create_failed : String → CreateReply

pub data GetReply : Type 0 where
  found : PriorityClass → GetReply
  get_failed : String → GetReply

pub data PriorityError : Type 0 where
  create_error get_error : String → PriorityError

pub data Warning : Type 0 where
  value_drifted : ℤ → Warning
  policy_drifted : Option String → Warning

unfoldable pub is_priority : ℤ → Bool
is_priority (pos n) = false
is_priority (negsuc n) = nat_eq n 999

unfoldable pub is_never : Option String → Bool
is_never none = false
is_never (some policy) = policy == preempt_never

unfoldable pub value_warnings : PriorityClass → List Warning
unfolding is_priority
value_warnings c = if is_priority c.value then [] else value_drifted c.value ∷ []

unfoldable pub policy_warnings : PriorityClass → List Warning
unfolding is_never
policy_warnings c =
    if is_never c.preemption_policy then [] else policy_drifted c.preemption_policy ∷ []

-- checkPriorityClassDrift: its error and its warnings.
unfoldable pub check_drift : GetReply → Option PriorityError × List Warning
unfolding value_warnings policy_warnings
check_drift (get_failed e) = (some (get_error e), [])
check_drift (found c) = (none, value_warnings c ++ policy_warnings c)

after_create : CreateReply → GetReply → Option PriorityError × List Warning
unfolding check_drift
after_create class_created get = (none, [])
after_create already_exists get = check_drift get
after_create (create_failed e) get = (some (create_error e), [])

unfoldable pub ensure_priority_class :
    (PriorityClass → CreateReply) → GetReply → Option PriorityError × List Warning
unfolding after_create
ensure_priority_class create get = after_create (create headroom_class) get

-- A class whose pods every other pod may preempt, and which preempt none.
abbrev pub IsHeadroom : PriorityClass → Type 0
IsHeadroom c = (c.value ≡ priority_value) × (c.preemption_policy ≡ some preempt_never)

is_priority-lem : (z : ℤ) → is_priority z ≡ true → z ≡ priority_value
unfolding is_priority
is_priority-lem (pos n) h = cc
is_priority-lem (negsuc n) h = let e : n ≡ 999 = ground arith in ap negsuc e

is_never-lem : (p : Option String) → is_never p ≡ true → p ≡ some preempt_never
unfolding is_never
is_never-lem none h = cc
is_never-lem (some p) h = ap some ((eq_iff p preempt_never).0 h)

cons-nil : {w : Warning} {ws : List Warning} → w ∷ ws ≡ [] → ⊥
cons-nil h = cc

no_warnings : (c : PriorityClass) → value_warnings c ++ policy_warnings c ≡ [] → IsHeadroom c
unfolding value_warnings policy_warnings
no_warnings c h = elim (Bool-cases (is_priority c.value)) [
  | inr e ↦ absurd (cons-nil (rw (e, value_warnings) at h))
  | inl e ↦ elim (Bool-cases (is_never c.preemption_policy)) [
    | inr k ↦ absurd (cons-nil (rw (e, k, value_warnings, policy_warnings) at h))
    | inl k ↦ (is_priority-lem c.value e, is_never-lem c.preemption_policy k)
  ]
]

warned : (c : PriorityClass) → IsHeadroom c → value_warnings c ++ policy_warnings c ≡ []
unfolding value_warnings policy_warnings is_priority is_never
warned c (v, p) = rw (v, p) refl

-- A run without an error and without a warning.
abbrev pub IsQuiet : Option PriorityError × List Warning → Type 0
IsQuiet r = (r.0 ≡ none) × (r.1 ≡ [])

-- The class has been created, or one as it should be exists.
abbrev pub IsThere : CreateReply → GetReply → Type 0
IsThere reply get =
    (reply ≡ class_created)
    ⊎ ((reply ≡ already_exists) × ((c : PriorityClass) × (get ≡ found c) × IsHeadroom c))

quiet-IsThere :
    (reply : CreateReply) (get : GetReply) → IsQuiet (after_create reply get) → IsThere reply get
unfolding after_create check_drift
quiet-IsThere class_created get h = inl refl
quiet-IsThere (create_failed e) get h = cc
quiet-IsThere already_exists (get_failed e) h = cc
quiet-IsThere already_exists (found c) h = inr (refl, (c, refl, no_warnings c h.1))

there-IsQuiet :
    (reply : CreateReply) (get : GetReply) → IsThere reply get → IsQuiet (after_create reply get)
unfolding after_create check_drift
there-IsQuiet reply get (inl e) = rw (e, after_create) (refl, refl)
there-IsQuiet reply get (inr (e, (c, g, h))) =
    rw (e, g, after_create, check_drift) (refl, warned c h)

-- ensurePriorityClass returns no error and logs no warning exactly when it has created the class, or
-- one exists whose value and whose preemption policy are those that it would have created.
pub ensure-IsQuiet-IsThere :
    (create : PriorityClass → CreateReply) (get : GetReply)
    → let run = ensure_priority_class create get in
      let there = IsThere (create headroom_class) get in
      (IsQuiet run → there) × (there → IsQuiet run)
unfolding ensure_priority_class
ensure-IsQuiet-IsThere create get =
    (quiet-IsThere (create headroom_class) get, there-IsQuiet (create headroom_class) get)
