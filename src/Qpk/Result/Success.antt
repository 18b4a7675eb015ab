-- ===== src/Qpk/Result/Success.antt =====
-- What it means that a sequence of steps with errors succeeds.
use diy_ebook.Prelude.{Bool, true, false, ◌≡◌, refl}
use diy_ebook.Qpk.Result.{Error, Result, ok, err, ◌>>=◌, ◌>>◌, done, refuse_if}

pub passed :
    {A : Type 0} (failed : Bool) (e : Error) (rest : Result A) (a : A)
    → (refuse_if failed e >> rest) ≡ ok a
    → (failed ≡ false) × (rest ≡ ok a)
passed true e rest a h = cc
passed false e rest a h = (refl, h)

pub then-ok :
    {A : Type 0} (first : Result (Unit {0})) (rest : Result A) (a : A)
    → (first >> rest) ≡ ok a
    → (first ≡ done) × (rest ≡ ok a)
then-ok (ok u) rest a h = (refl, h)
then-ok (err e) rest a h = cc

pub bind-ok :
    {A B : Type 0} (first : Result A) (rest : A → Result B) (b : B)
    → (first >>= rest) ≡ ok b
    → (a : A) × ((first ≡ ok a) × (rest a ≡ ok b))
bind-ok (ok a) rest b h = (a, (refl, h))
bind-ok (err e) rest b h = cc

pub refuse-done : (failed : Bool) (e : Error) → refuse_if failed e ≡ done → failed ≡ false
refuse-done true e h = cc
refuse-done false e h = refl

pub ok-inj : {A : Type 0} (a b : A) → ok a ≡ ok b → a ≡ b
ok-inj a b h = cc
