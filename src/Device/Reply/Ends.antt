-- ===== src/Device/Reply/Ends.antt =====
-- How a handler ends that answers a command outside the data queues: with one reply to the command,
-- or with none and a failure. The rules follow the shape of the handlers.
use virtual_usb.Base.{
  ℕ, ◌++◌, ◌≡◌, refl, ap, sym, subst, ◌∙◌, Bool, true, false, List, [], ◌∷◌, Option, none, some,
  if◌then◌else◌, ◌==◌, leb, arith, length, take, length-take, leb→le, ==_iff, Bool-cases, inl, inr,
}
use virtual_usb.Usbip
use virtual_usb.Usb.{ConfigurationDescriptor}
use virtual_usb.Device.State.{
  Cmd, Shared, Error, Result, ok, throws, aborts, undefined, M, ◌>>=◌, continue, >>=_ok, throw,
  assert, throw_if, pure, invalid_usbip_command,
}
use virtual_usb.Device.Reply.{
  memcpy, push_rep, reply_base, submit_reply, unlink_reply, reply, valid_arguments, sends,
  copy_payload, push_submit, reply_submit,
}

pub data Failure : Type 0 where
  threw : Error → Failure
  aborted faulted : Failure

abbrev pub fail {ℓ} : {A : Type ℓ} → Failure → Result A
fail (threw e) = throws e
fail aborted = aborts
fail faulted = undefined

abbrev pub with_config : Shared → Option ConfigurationDescriptor → Shared
with_config s c = record s { config_desc = c }

-- A step that changes at most the active configuration; what it returns has `P`.
module _ {A : Type 0} (P : A → Type 0) where
  pub data YieldsAt (s : Shared) (o : Result A × Shared) : Type 0 where
    goes :
        (a : A) (c : Option ConfigurationDescriptor)
        → P a
        → o ≡ (ok a, with_config s c)
        → YieldsAt s o
    stops :
        (e : Failure) (c : Option ConfigurationDescriptor)
        → o ≡ (fail e, with_config s c)
        → YieldsAt s o

  abbrev pub Yields : M A → Type 0
  Yields m = (s : Shared) → YieldsAt s (m s)

abbrev pub Any : {A : Type 0} → A → Type 0
Any a = Unit {0}

pub pure-Yields : {A : Type 0} (P : A → Type 0) (a : A) → P a → Yields P (pure a)
pure-Yields P a h s = goes a s.config_desc h refl

pub throw_if-Yields : (b : Bool) (e : Error) → Yields Any (throw_if b e)
throw_if-Yields true e s = stops (threw e) s.config_desc refl
throw_if-Yields false e s = goes tt s.config_desc tt refl

pub assert-Yields : (b : Bool) → Yields Any (assert b)
assert-Yields true s = goes tt s.config_desc tt refl
assert-Yields false s = stops aborted s.config_desc refl

pub if-Yields :
    {A : Type 0} (P : A → Type 0) (b : Bool) (m k : M A)
    → Yields P m
    → Yields P k
    → Yields P (if b then m else k)
if-Yields P true m k hm hk = hm
if-Yields P false m k hm hk = hk

pub memcpy-Yields : (p : Option (List ℕ)) (n : ℕ) → Yields (λ bs. length bs ≡ n) (memcpy p n)
unfolding memcpy
memcpy-Yields none n s = elim (Bool-cases (n == 0)) [
  | inl e ↦ rw e (goes [] s.config_desc (sym ((==_iff n 0).0 e)) refl)
  | inr e ↦ rw e (stops faulted s.config_desc refl)
]
memcpy-Yields (some m) n s = elim (Bool-cases (leb n (length m))) [
  | inl e ↦
      rw e
        (goes (take n m) s.config_desc (omega (arith, length-take n m, leb→le n (length m) e)) refl)
  | inr e ↦ rw e (stops faulted s.config_desc refl)
]

continue-fail :
    {A B : Type 0} (f : A → M B) (e : Failure) (s : Shared) → continue f (fail e, s) ≡ (fail e, s)
continue-fail f (threw e) s = refl
continue-fail f aborted s = refl
continue-fail f faulted s = refl

pub bind-Yields :
    {A B : Type 0} (P : A → Type 0) (Q : B → Type 0) (m : M A) (f : A → M B)
    → Yields P m
    → ((a : A) → P a → Yields Q (f a))
    → Yields Q (m >>= f)
bind-Yields {A} {B} P Q m f hm hf s = step (hm s)
  where
    then_step :
        (c : Option ConfigurationDescriptor) (o : Result B × Shared)
        → YieldsAt Q (with_config s c) o
        → YieldsAt Q s o
    then_step c o (goes b c' h e) = goes b c' h e
    then_step c o (stops x c' e) = stops x c' e

    step : YieldsAt P s (m s) → YieldsAt Q s ((m >>= f) s)
    step (goes a c h e) =
        subst (YieldsAt Q s) (sym (>>=_ok m f s e)) (then_step c _ (hf a h (with_config s c)))
    step (stops x c e) = stops x c (ap (continue f) e ∙ continue-fail f x (with_config s c))

-- The kind of reply that a command gets.
abbrev pub reply_command : Cmd → ℕ
reply_command cmd =
    if cmd.header.base.command == Usbip.cmd_submit then Usbip.ret_submit else Usbip.ret_unlink

module _ (little : Bool) (cmd : Cmd) where
  -- A reply to `cmd`: it bears the numbers of the command, and its length is that of its payload.
  pub record Answers (rep : Cmd) : Type 0 where
    pub base : rep.header.base ≡ reply_base little (reply_command cmd) cmd
    pub sized : rep.payload_len ≡ length rep.payload

  pub data IsEndAt (s : Shared) (o : Result (Unit {0}) × Shared) : Type 0 where
    answered :
        (rep : Cmd) (c : Option ConfigurationDescriptor)
        → Answers rep
        → o ≡ (ok tt, record s { config_desc = c; reps = s.reps ++ (rep ∷ []) })
        → IsEndAt s o
    refused :
        (e : Failure) (c : Option ConfigurationDescriptor)
        → o ≡ (fail e, with_config s c)
        → IsEndAt s o

  abbrev pub IsEnd : M (Unit {0}) → Type 0
  IsEnd m = (s : Shared) → IsEndAt s (m s)

  pub throw-IsEnd : (e : Error) → IsEnd (throw e)
  throw-IsEnd e s = refused (threw e) s.config_desc refl

  pub if-IsEnd : (b : Bool) (m k : M (Unit {0})) → IsEnd m → IsEnd k → IsEnd (if b then m else k)
  if-IsEnd true m k hm hk = hm
  if-IsEnd false m k hm hk = hk

  push_rep-IsEnd : (rep : Cmd) → Answers rep → IsEnd (push_rep rep)
  push_rep-IsEnd rep a s = answered rep s.config_desc a refl

  pub bind-IsEnd :
      {A : Type 0} (P : A → Type 0) (m : M A) (f : A → M (Unit {0}))
      → Yields P m
      → ((a : A) → P a → IsEnd (f a))
      → IsEnd (m >>= f)
  bind-IsEnd {A} P m f hm hf s = step (hm s)
    where
      then_step :
          (c : Option ConfigurationDescriptor) (o : Result (Unit {0}) × Shared)
          → IsEndAt (with_config s c) o
          → IsEndAt s o
      then_step c o (answered rep c' a e) = answered rep c' a e
      then_step c o (refused x c' e) = refused x c' e

      step : YieldsAt P s (m s) → IsEndAt s ((m >>= f) s)
      step (goes a c h e) =
          subst (IsEndAt s) (sym (>>=_ok m f s e)) (then_step c _ (hf a h (with_config s c)))
      step (stops x c e) = refused x c (ap (continue f) e ∙ continue-fail f x (with_config s c))

  payload-Yields :
      (b : Bool) (p : Option (List ℕ)) (len : ℕ)
      → Yields (λ bs. (if b then len else 0) ≡ length bs) (if b then memcpy p len else pure [])
  payload-Yields true p len s = memcpy_sym (memcpy-Yields p len s)
    where
      memcpy_sym :
          YieldsAt (λ bs. length bs ≡ len) s (memcpy p len s)
          → YieldsAt (λ bs. len ≡ length bs) s (memcpy p len s)
      memcpy_sym (goes a c h e) = goes a c (sym h) e
      memcpy_sym (stops x c e) = stops x c e
  payload-Yields false p len s = goes [] s.config_desc refl refl

  submit_reply-Answers :
      (bs : List ℕ) (n len : ℕ)
      → (cmd.header.base.command == Usbip.cmd_submit) ≡ true
      → n ≡ length bs
      → Answers (submit_reply little cmd bs n len)
  unfolding submit_reply
  submit_reply-Answers bs n len e h = record {
    base =
        ap (λ b. reply_base little (if b then Usbip.ret_submit else Usbip.ret_unlink) cmd) (sym e);
    sized = h;
  }

  unlink_reply-Answers :
      (status : ℕ)
      → (cmd.header.base.command == Usbip.cmd_submit) ≡ false
      → Answers (unlink_reply little cmd status)
  unfolding unlink_reply
  unlink_reply-Answers status e = record {
    base =
        ap (λ b. reply_base little (if b then Usbip.ret_submit else Usbip.ret_unlink) cmd) (sym e);
    sized = refl;
  }

  reply_submit-IsEnd :
      (p : Option (List ℕ)) (len : ℕ)
      → (cmd.header.base.command == Usbip.cmd_submit) ≡ true
      → IsEnd (reply_submit little cmd p len)
  reply_submit-IsEnd p len e =
      bind-IsEnd Any (assert (valid_arguments little cmd p len))
        (λ _. copy_payload cmd p len >>= push_submit little cmd len)
        (assert-Yields (valid_arguments little cmd p len))
        λ _ _.
          bind-IsEnd (λ bs. (if sends cmd len then len else 0) ≡ length bs) (copy_payload cmd p len)
            (push_submit little cmd len) (payload-Yields (sends cmd len) p len)
            λ bs h. push_rep-IsEnd _ (submit_reply-Answers bs _ len e h)

  -- `_reply` queues one reply to its command, or fails and queues none.
  pub reply-IsEnd : (p : Option (List ℕ)) (len status : ℕ) → IsEnd (reply little cmd p len status)
  unfolding reply
  reply-IsEnd p len status s = elim (Bool-cases (cmd.header.base.command == Usbip.cmd_submit)) [
    | inl e ↦ rw e (reply_submit-IsEnd p len e s)
    | inr e ↦ rw e (
        if-IsEnd (cmd.header.base.command == Usbip.cmd_unlink)
          (push_rep (unlink_reply little cmd status))
          (throw (invalid_usbip_command cmd.header.base.command))
          (push_rep-IsEnd _ (unlink_reply-Answers status e)) (throw-IsEnd _) s)
  ]
