-- ===== src/Docker/Landlock/Order.antt =====
-- The order of the system calls of a launch that succeeds.
use Prim.Native.Nat.{bit_and}
use mathlib.Core.List.{append-nil, append_assoc}
use mathlib.Core.Path.{subst}
use sandbox_tester.Docker.Landlock.{
  add_beneath, add_allowed, enforce, with_ruleset, with_abi_version, Call, open_path, add_rule,
  close, Kernel, Run, PathRule, then_run, closing, after_close, parse_access, add_path_rules,
  apply_landlock_rules, call, restrict, set_no_new_privileges, add_path_rule, restrict_self, Answer,
  answered, value, failure, supported_access_mask, get_abi_version, create_ruleset,
}
use sandbox_tester.Common.{
  ℕ, ◌≡◌, refl, sym, ap, List, [], ◌∷◌, ◌++◌, Result, ok, err, ◌∙◌, ok-injective, arith,
}

-- The three calls of one rule.
abbrev rule_calls : ℕ → ℕ → ℕ → PathRule → List Call
rule_calls ruleset_fd allowed parent_fd rule =
    open_path rule.path ∷ add_rule ruleset_fd allowed parent_fd ∷ close parent_fd ∷ []

-- After the calls before them, the calls add the rules to the ruleset, one after the other, each with
-- the rights of its access that the ruleset handles, beneath the descriptor with which the kernel
-- answered the opening of its path, and each closes that descriptor.
pub data Adds (kernel : Kernel) (ruleset_fd handled_access : ℕ)
    : List Call → List PathRule → List Call → Type 0 where
  none_left : (before : List Call) → Adds kernel ruleset_fd handled_access before [] []
  adds :
      (before : List Call) (rule : PathRule) (rights parent_fd : ℕ) {rules : List PathRule}
      {calls : List Call}
      → parse_access rule.access ≡ ok rights
      → kernel before (open_path rule.path) ≡ value parent_fd
      → Adds kernel ruleset_fd handled_access
          (before ++ rule_calls ruleset_fd (bit_and rights handled_access) parent_fd rule)
          rules
          calls
      → Adds kernel ruleset_fd handled_access before
          (rule ∷ rules)
          (rule_calls ruleset_fd (bit_and rights handled_access) parent_fd rule ++ calls)

then_run-eq-ok :
    {A B : Type 0} (m : List Call × Result A) (next : A → Run B) (trace : List Call) (b : B)
    → then_run m next ≡ (trace, ok b)
    → (trace₁ : List Call) × (a : A) × (m ≡ (trace₁, ok a)) × (next a trace₁ ≡ (trace, ok b))
then_run-eq-ok (trace₁, ok a) next trace b h = (trace₁, a, refl, h)
then_run-eq-ok (trace₁, err e) next trace b h = cc

-- The calls before and after.
traced :
    {A : Type 0} (t t' : List Call) (r r' : Result A)
    → ◌≡◌ {A = List Call × Result A} (t, r) (t', r')
    → (t ≡ t') × (r ≡ r')
traced {A} t t' r r' h =
    (ap (λ (x : List Call × Result A). x.0) h, ap (λ (x : List Call × Result A). x.1) h)

after_close-eq-ok :
    {A : Type 0} (result : Result A) (closed : Result ℕ) (a : A)
    → after_close result closed ≡ ok a
    → result ≡ ok a
after_close-eq-ok result (ok n) a h = h
after_close-eq-ok result (err e) a h = cc

answered-eq-ok : (answer : Answer) (n : ℕ) → answered answer ≡ ok n → answer ≡ value n
answered-eq-ok (value m) n h = ground (arith, ok-injective m n h)
answered-eq-ok (failure m) n h = cc

module _ (kernel : Kernel) where
  closing-eq-ok :
      {A : Type 0} (fd : ℕ) (m : List Call × Result A) (trace : List Call) (a : A)
      → closing kernel fd m ≡ (trace, ok a)
      → (trace ≡ m.0 ++ close fd ∷ []) × (m.1 ≡ ok a)
  closing-eq-ok fd (t, r) trace a h =
      let (same, result) = traced _ trace _ (ok a) h in (sym same, after_close-eq-ok r _ a result)

  call-eq-ok :
      (c : Call) (t trace : List Call) (n : ℕ)
      → call kernel c t ≡ (trace, ok n)
      → trace ≡ t ++ c ∷ []
  call-eq-ok c t trace n h = sym (traced _ trace _ (ok n) h).0

  -- A call that succeeds has returned the kernel's answer to it.
  call-answer :
      (c : Call) (t trace : List Call) (n : ℕ)
      → call kernel c t ≡ (trace, ok n)
      → kernel t c ≡ value n
  call-answer c t trace n h = answered-eq-ok (kernel t c) n (traced _ trace _ (ok n) h).1

  add_beneath-eq-ok :
      (ruleset_fd allowed parent_fd : ℕ) (t trace : List Call) (n : ℕ)
      → add_beneath kernel ruleset_fd allowed parent_fd t ≡ (trace, ok n)
      → trace ≡ t ++ add_rule ruleset_fd allowed parent_fd ∷ close parent_fd ∷ []
  add_beneath-eq-ok ruleset_fd allowed parent_fd t trace n h =
      (closing-eq-ok parent_fd (call kernel (add_rule ruleset_fd allowed parent_fd) t) trace n h).0
      ∙ append_assoc t (add_rule ruleset_fd allowed parent_fd ∷ []) (close parent_fd ∷ [])

  add_allowed-eq-ok :
      (ruleset_fd handled : ℕ) (rule : PathRule) (parsed : Result ℕ) (t trace : List Call) (n : ℕ)
      → add_allowed kernel ruleset_fd rule handled parsed t ≡ (trace, ok n)
      → (rights : ℕ) × (parent_fd : ℕ) × (parsed ≡ ok rights)
        × (kernel t (open_path rule.path) ≡ value parent_fd)
        × (trace ≡ t ++ rule_calls ruleset_fd (bit_and rights handled) parent_fd rule)
  add_allowed-eq-ok ruleset_fd handled rule (err e) t trace n h = cc
  add_allowed-eq-ok ruleset_fd handled rule (ok rights) t trace n h =
      let (t₁, parent_fd, h₁, r₁) =
        then_run-eq-ok (call kernel (open_path rule.path) t)
          (add_beneath kernel ruleset_fd (bit_and rights handled)) trace n h in
      (
        rights,
        parent_fd,
        refl,
        call-answer (open_path rule.path) t t₁ parent_fd h₁,
        add_beneath-eq-ok ruleset_fd (bit_and rights handled) parent_fd t₁ trace n r₁
            ∙ ap
                (λ (x : List Call).
                  x
                  ++ add_rule ruleset_fd (bit_and rights handled) parent_fd ∷ close parent_fd ∷ [])
                (call-eq-ok (open_path rule.path) t t₁ parent_fd h₁)
            ∙ append_assoc t (open_path rule.path ∷ []) _,
      )

  add_path_rules-eq-ok :
      (ruleset_fd handled : ℕ) (rules : List PathRule) (t trace : List Call) (n : ℕ)
      → add_path_rules kernel ruleset_fd rules handled t ≡ (trace, ok n)
      → (calls : List Call) × (trace ≡ t ++ calls) × Adds kernel ruleset_fd handled t rules calls
  unfolding add_path_rules add_path_rule
  add_path_rules-eq-ok ruleset_fd handled [] t trace n h =
      ([], sym (traced t trace _ (ok n) h).0 ∙ sym (append-nil t), none_left t)
  add_path_rules-eq-ok ruleset_fd handled (rule ∷ rules) t trace n h =
      let (t₁, m, h₁, r₁) =
        then_run-eq-ok (add_allowed kernel ruleset_fd rule handled (parse_access rule.access) t)
          (λ _ trace'. add_path_rules kernel ruleset_fd rules handled trace') trace n h in
      let (rights, parent_fd, parsed, opened, first) =
        add_allowed-eq-ok ruleset_fd handled rule (parse_access rule.access) t t₁ m h₁ in
      let (calls, more, rest) = add_path_rules-eq-ok ruleset_fd handled rules t₁ trace n r₁ in
      let one = rule_calls ruleset_fd (bit_and rights handled) parent_fd rule in
      (
        one ++ calls,
        more ∙ ap (λ (x : List Call). x ++ calls) first ∙ append_assoc t one calls,
        adds t rule rights parent_fd parsed opened
            (subst (λ (x : List Call). Adds kernel ruleset_fd handled x rules calls) first rest),
      )

  enforce-eq-ok :
      (ruleset_fd : ℕ) (t trace : List Call) (n : ℕ)
      → enforce kernel ruleset_fd t ≡ (trace, ok n)
      → (kernel (t ++ set_no_new_privileges ∷ []) (restrict_self ruleset_fd) ≡ value n)
        × (trace ≡ t ++ set_no_new_privileges ∷ restrict_self ruleset_fd ∷ [])
  enforce-eq-ok ruleset_fd t trace n h =
      let (t₁, m, h₁, r₁) =
        then_run-eq-ok (call kernel set_no_new_privileges t)
          (λ _ trace'. call kernel (restrict_self ruleset_fd) trace') trace n h in
      let first = call-eq-ok set_no_new_privileges t t₁ m h₁ in
      (
        sym (ap (λ (x : List Call). kernel x (restrict_self ruleset_fd)) first)
            ∙ call-answer (restrict_self ruleset_fd) t₁ trace n r₁,
        call-eq-ok (restrict_self ruleset_fd) t₁ trace n r₁
            ∙ ap (λ (x : List Call). x ++ restrict_self ruleset_fd ∷ []) first
            ∙ append_assoc t (set_no_new_privileges ∷ []) (restrict_self ruleset_fd ∷ []),
      )

  restrict-eq-ok :
      (ruleset_fd handled : ℕ) (rules : List PathRule) (m : List Call × Result ℕ) (t : List Call)
      (n : ℕ)
      → restrict kernel ruleset_fd rules handled t ≡ m
      → m.1 ≡ ok n
      → (calls : List Call) × Adds kernel ruleset_fd handled t rules calls
        × (kernel (t ++ (calls ++ set_no_new_privileges ∷ [])) (restrict_self ruleset_fd) ≡ value n)
        × (m.0 ≡ t ++ (calls ++ set_no_new_privileges ∷ restrict_self ruleset_fd ∷ []))
  unfolding restrict
  restrict-eq-ok ruleset_fd handled rules (trace, r) t n h e =
      let (t₁, m, h₁, r₁) =
        then_run-eq-ok (add_path_rules kernel ruleset_fd rules handled t)
          (λ _ trace'. enforce kernel ruleset_fd trace') trace n
          (h ∙ ap (λ (x : Result ℕ). (trace, x)) e) in
      let (calls, more, all) = add_path_rules-eq-ok ruleset_fd handled rules t t₁ m h₁ in
      let (enforced, order) = enforce-eq-ok ruleset_fd t₁ trace n r₁ in
      (
        calls,
        all,
        sym (
              ap (λ (x : List Call). kernel x (restrict_self ruleset_fd))
                (ap (λ (x : List Call). x ++ set_no_new_privileges ∷ []) more
                  ∙ append_assoc t calls (set_no_new_privileges ∷ [])))
            ∙ enforced,
        order
            ∙ ap (λ (x : List Call). x ++ set_no_new_privileges ∷ restrict_self ruleset_fd ∷ [])
                more
            ∙ append_assoc t calls _,
      )

  -- A launch that succeeds asks for the version, makes the ruleset of the rights that the version with
  -- which the kernel answered supports, adds every rule in its order with the rights of its access,
  -- beneath the descriptor with which the kernel answered the opening of its path, gives up new
  -- privileges, enforces the ruleset with which the kernel answered on itself, which the kernel answers
  -- without an error, and closes it: these calls and no others, in this order.
  pub apply_landlock_rules_lem :
      (rules : List PathRule) (trace : List Call) (n : ℕ)
      → apply_landlock_rules kernel rules [] ≡ (trace, ok n)
      → (abi_version : ℕ) × (ruleset_fd : ℕ) × (calls : List Call) × (kernel [] get_abi_version
          ≡ value abi_version)
        × (kernel (get_abi_version ∷ []) (create_ruleset (supported_access_mask abi_version))
            ≡ value ruleset_fd)
        × Adds kernel ruleset_fd
            (supported_access_mask abi_version)
            (get_abi_version ∷ create_ruleset (supported_access_mask abi_version) ∷ [])
            rules
            calls
        × (kernel
              (get_abi_version
                ∷ create_ruleset (supported_access_mask abi_version)
                ∷ (calls ++ set_no_new_privileges ∷ []))
              (restrict_self ruleset_fd)
            ≡ value n)
        × (trace
            ≡ get_abi_version
              ∷ create_ruleset (supported_access_mask abi_version)
              ∷ (calls ++ set_no_new_privileges ∷ restrict_self ruleset_fd ∷ close ruleset_fd ∷ []))
  unfolding apply_landlock_rules
  apply_landlock_rules_lem rules trace n h =
      let (t₁, abi_version, h₁, r₁) =
        then_run-eq-ok (call kernel get_abi_version []) (with_abi_version kernel rules) trace n h in
      let handled = supported_access_mask abi_version in
      let (t₂, ruleset_fd, h₂, r₂) =
        then_run-eq-ok (call kernel (create_ruleset handled) t₁) (with_ruleset kernel rules handled)
          trace n r₁ in
      let (closed, result) =
        closing-eq-ok ruleset_fd (restrict kernel ruleset_fd rules handled t₂) trace n r₂ in
      let (calls, all, enforced, restricted) =
        restrict-eq-ok ruleset_fd handled rules (restrict kernel ruleset_fd rules handled t₂) t₂ n
          refl result in
      let asked = call-eq-ok get_abi_version [] t₁ abi_version h₁ in
      let made =
        call-eq-ok (create_ruleset handled) t₁ t₂ ruleset_fd h₂
        ∙ ap (λ (x : List Call). x ++ create_ruleset handled ∷ []) asked in
      (
        abi_version,
        ruleset_fd,
        calls,
        call-answer get_abi_version [] t₁ abi_version h₁,
        sym (ap (λ (x : List Call). kernel x (create_ruleset handled)) asked)
            ∙ call-answer (create_ruleset handled) t₁ t₂ ruleset_fd h₂,
        subst (λ (x : List Call). Adds kernel ruleset_fd handled x rules calls) made all,
        sym (
              ap
                (λ (x : List Call).
                  kernel (x ++ (calls ++ set_no_new_privileges ∷ [])) (restrict_self ruleset_fd))
                made)
            ∙ enforced,
        closed
            ∙ ap (λ (x : List Call). x ++ close ruleset_fd ∷ [])
                (restricted
                  ∙ ap
                      (λ (x : List Call).
                        x ++ (calls ++ set_no_new_privileges ∷ restrict_self ruleset_fd ∷ []))
                      made)
            ∙ ap (λ (x : List Call). get_abi_version ∷ create_ruleset handled ∷ x)
                (append_assoc calls (set_no_new_privileges ∷ restrict_self ruleset_fd ∷ [])
                  (close ruleset_fd ∷ [])),
      )
