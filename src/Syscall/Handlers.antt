-- ===== src/Syscall/Handlers.antt =====
-- Installing the signal handlers: setup_ctrlc_handler, setup_signal_handler and
-- setup_child_signal_handler of src/syscall/signals.c. Each handler blocks every signal while it runs.
use nextgen.Base.{
  ◌≡◌, ◌≢◌, ◌∙◌, Bool, true, Option, some, arith, Bool-cases, inl, inr, Status, success, failure,
  is_success, if◌then◌else◌,
}

-- The signals that get a handler here, and the handlers.
pub data SignalNumber : Type 0 where
  sigint sigchld sigbus sigsegv sigalrm : SignalNumber

pub data Handler : Type 0 where
  on_ctrlc on_child_exit on_child_signal : Handler

-- `installed w s` is the handler of a signal.
pub record SignalCalls : Type 1 where
  pub World : Type 0
  pub sigaction : SignalNumber → Handler → World → Bool × World
  pub installed : World → SignalNumber → Option Handler
  pub installed_here :
      (s : SignalNumber) (h : Handler) (w : World)
      → (sigaction s h w).0 ≡ true
      → installed (sigaction s h w).1 s ≡ some h
  pub installed_other :
      (s t : SignalNumber) (h : Handler) (w : World)
      → t ≢ s
      → installed (sigaction s h w).1 t ≡ installed w t

module _ (os : SignalCalls) where
  unfoldable pub setup_ctrlc_handler : os.World → Status × os.World
  setup_ctrlc_handler w =
      let (rtrn, w₁) = os.sigaction sigint on_ctrlc w in
      if rtrn then (success, w₁) else (failure, w₁)

  unfoldable pub setup_signal_handler : os.World → Status × os.World
  setup_signal_handler w =
      let (ctrlc, w₁) = setup_ctrlc_handler w in
      if is_success ctrlc
      then (let (rtrn, w₂) = os.sigaction sigchld on_child_exit w₁ in
          if rtrn then (success, w₂) else (failure, w₂))
      else (failure, w₁)

  unfoldable pub setup_child_signal_handler : os.World → Status × os.World
  setup_child_signal_handler w =
      let (ctrlc, w₁) = setup_ctrlc_handler w in
      if is_success ctrlc
      then (let (bus, w₂) = os.sigaction sigbus on_child_signal w₁ in
          if bus
          then (let (segv, w₃) = os.sigaction sigsegv on_child_signal w₂ in
              if segv
              then (let (alarm, w₄) = os.sigaction sigalrm on_child_signal w₃ in
                  if alarm then (success, w₄) else (failure, w₄))
              else (failure, w₃))
          else (failure, w₂))
      else (failure, w₁)

  -- When setup_child_signal_handler returns 0, SIGBUS, SIGSEGV and SIGALRM lead to the handler that
  -- jumps back to the child's loop, SIGINT leads to the one that does nothing, and SIGCHLD is as
  -- before.
  setup_child_signal_handler_lem :
      (w : os.World)
      → (setup_child_signal_handler w).0 ≡ success
      → let w' = (setup_child_signal_handler w).1 in
        (os.installed w' sigbus ≡ some on_child_signal)
        × (os.installed w' sigsegv ≡ some on_child_signal)
        × (os.installed w' sigalrm ≡ some on_child_signal)
        × (os.installed w' sigint ≡ some on_ctrlc)
        × (os.installed w' sigchld ≡ os.installed w sigchld)
  unfolding setup_child_signal_handler setup_ctrlc_handler
  setup_child_signal_handler_lem w ok =
      let w₁ = (os.sigaction sigint on_ctrlc w).1 in
      let w₂ = (os.sigaction sigbus on_child_signal w₁).1 in
      let w₃ = (os.sigaction sigsegv on_child_signal w₂).1 in
      let w₄ = (os.sigaction sigalrm on_child_signal w₃).1 in
      elim (Bool-cases (os.sigaction sigint on_ctrlc w).0) [
        | inr a ↦ ground (arith, a, ok)
        | inl a ↦ elim (Bool-cases (os.sigaction sigbus on_child_signal w₁).0) [
          | inr b ↦ ground (arith, a, b, ok)
          | inl b ↦ elim (Bool-cases (os.sigaction sigsegv on_child_signal w₂).0) [
            | inr c ↦ ground (arith, a, b, c, ok)
            | inl c ↦ elim (Bool-cases (os.sigaction sigalrm on_child_signal w₃).0) [
              | inr e ↦ ground (arith, a, b, c, e, ok)
              | inl e ↦
                  let keep = λ (t : SignalNumber) (n : t ≢ sigalrm).
                    os.installed_other sigalrm t on_child_signal w₃ n in
                  let bus =
                    keep sigbus (λ x. cc)
                    ∙ os.installed_other sigsegv sigbus on_child_signal w₂ (λ x. cc)
                    ∙ os.installed_here sigbus on_child_signal w₁ b in
                  let segv =
                    keep sigsegv (λ x. cc) ∙ os.installed_here sigsegv on_child_signal w₂ c in
                  let alarm = os.installed_here sigalrm on_child_signal w₃ e in
                  let int =
                    keep sigint (λ x. cc)
                    ∙ os.installed_other sigsegv sigint on_child_signal w₂ (λ x. cc)
                    ∙ os.installed_other sigbus sigint on_child_signal w₁ (λ x. cc)
                    ∙ os.installed_here sigint on_ctrlc w a in
                  let chld =
                    keep sigchld (λ x. cc)
                    ∙ os.installed_other sigsegv sigchld on_child_signal w₂ (λ x. cc)
                    ∙ os.installed_other sigbus sigchld on_child_signal w₁ (λ x. cc)
                    ∙ os.installed_other sigint sigchld on_ctrlc w (λ x. cc) in
                  let ran : (setup_child_signal_handler w).1 ≡ w₄ = ground (arith, a, b, c, e) in
                  rw ran (bus, segv, alarm, int, chld)
            ]
          ]
        ]
      ]
