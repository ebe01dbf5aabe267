-- ===== src/Base/Outcome.antt =====
-- How a C function of this program ends.
use mathlib.Core.Path.{◌≡◌, refl, subst}
use mathlib.Core.Bool.{Bool, true, false}
use pnacl_c.Base.Tests.{if◌then◌else◌}
use mathlib.Core.Option.{Option, none, some}

-- `fatal` is the exit of PN_FATAL, PN_CHECK and PN_UNREACHABLE; `fault` is a failed `assert`, or an
-- access or an operation that C leaves undefined; `stuck` is no end of the program: the fuel of a
-- modelled loop ran out.
pub data Result {ℓ} (A : Type ℓ) : Type ℓ where
  ok : A → Result A
  fatal fault stuck : Result A

-- The code behind a call, which runs only if the call returns.
infixl 5 ◌>>=◌ ◌>>◌
abbrev pub ◌>>=◌ {ℓ κ} : {A : Type ℓ} {B : Type κ} → Result A → (A → Result B) → Result B
ok returned >>= behind = behind returned
fatal >>= behind = fatal
fault >>= behind = fault
stuck >>= behind = stuck

abbrev pub ◌>>◌ {ℓ} : {B : Type ℓ} → Result (Unit {0}) → Result B → Result B
test >> behind = test >>= λ _. behind

-- PN_CHECK(x).
abbrev pub check : Bool → Result (Unit {0})
check true = ok tt
check false = fatal

-- assert(x).
abbrev pub assert : Bool → Result (Unit {0})
assert true = ok tt
assert false = fault

-- A read through an index that may be out of the array.
abbrev pub from_option {ℓ} : {A : Type ℓ} → Option A → Result A
from_option (some a) = ok a
from_option none = fault

-- A sequence that returns ran both of its parts.
pub both_returned :
    {A B : Type 0} (first : Result A) (behind : A → Result B) {last : B}
    → (first >>= behind) ≡ ok last
    → (mid : A) × (first ≡ ok mid) × (behind mid ≡ ok last)
both_returned stuck behind returned = cc
both_returned fault behind returned = cc
both_returned fatal behind returned = cc
both_returned (ok mid) behind returned = (mid, refl, returned)

-- What holds of the value, if there is one.
pub data Ensures {A : Type 0} (P : A → Type 0) : Result A → Type 0 where
  done : {a : A} → P a → Ensures P (ok a)
  fatal_end : Ensures P fatal
  fault_end : Ensures P fault
  stuck_end : Ensures P stuck

pub Ensures-ok : {A : Type 0} {P : A → Type 0} {a : A} {r : Result A} → Ensures P r → r ≡ ok a → P a
Ensures-ok {P} (done h) e = subst P (cc) h
Ensures-ok fatal_end e = cc
Ensures-ok fault_end e = cc
Ensures-ok stuck_end e = cc

-- Of a sequence, by what its parts ensure; by its second part alone; and of a choice.
pub Ensures-bind :
    {A B : Type 0} {Q : A → Type 0} {P : B → Type 0} {r : Result A} {f : A → Result B}
    → Ensures Q r
    → ((a : A) → Q a → Ensures P (f a))
    → Ensures P (r >>= f)
Ensures-bind (done {a} h) k = k a h
Ensures-bind fatal_end k = fatal_end
Ensures-bind fault_end k = fault_end
Ensures-bind stuck_end k = stuck_end

pub Ensures-any :
    {A B : Type 0} {P : B → Type 0} (r : Result A) {f : A → Result B}
    → ((a : A) → Ensures P (f a))
    → Ensures P (r >>= f)
Ensures-any (ok a) k = k a
Ensures-any fatal k = fatal_end
Ensures-any fault k = fault_end
Ensures-any stuck k = stuck_end

pub Ensures-if :
    {A : Type 0} {P : A → Type 0} (b : Bool) {r r' : Result A}
    → Ensures P r
    → Ensures P r'
    → Ensures P (if b then r else r')
Ensures-if true h k = h
Ensures-if false h k = k

pub Ensures-weaken :
    {A : Type 0} {P Q : A → Type 0} {r : Result A}
    → ((a : A) → P a → Q a)
    → Ensures P r
    → Ensures Q r
Ensures-weaken k (done {a} h) = done (k a h)
Ensures-weaken k fatal_end = fatal_end
Ensures-weaken k fault_end = fault_end
Ensures-weaken k stuck_end = stuck_end

-- What holds of the value, if there is one, of a run that does not run out of fuel.
pub data Ends {A : Type 0} (P : A → Type 0) : Result A → Type 0 where
  returned : {a : A} → P a → Ends P (ok a)
  in_fatal : Ends P fatal
  in_fault : Ends P fault

pub Ends-bind :
    {A B : Type 0} {Q : A → Type 0} {P : B → Type 0} {r : Result A} {f : A → Result B}
    → Ends Q r
    → ((a : A) → Q a → Ends P (f a))
    → Ends P (r >>= f)
Ends-bind (returned {a} h) k = k a h
Ends-bind in_fatal k = in_fatal
Ends-bind in_fault k = in_fault

pub Ends-if :
    {A : Type 0} {P : A → Type 0} (b : Bool) {r r' : Result A}
    → Ends P r
    → Ends P r'
    → Ends P (if b then r else r')
Ends-if true h k = h
Ends-if false h k = k

pub Ends-check : (b : Bool) → Ends (λ _. b ≡ true) (check b)
Ends-check true = returned refl
Ends-check false = in_fatal

pub Ends-from_option : {A : Type 0} (o : Option A) → Ends (λ a. o ≡ some a) (from_option o)
Ends-from_option (some a) = returned refl
Ends-from_option none = in_fault

pub Ends-ok : {A : Type 0} {P : A → Type 0} {a : A} {r : Result A} → Ends P r → r ≡ ok a → P a
Ends-ok {P} (returned h) e = subst P (cc) h
Ends-ok in_fatal e = cc
Ends-ok in_fault e = cc

pub Ends-weaken :
    {A : Type 0} {P Q : A → Type 0} {r : Result A} → ((a : A) → P a → Q a) → Ends P r → Ends Q r
Ends-weaken k (returned {a} h) = returned (k a h)
Ends-weaken k in_fatal = in_fatal
Ends-weaken k in_fault = in_fault
