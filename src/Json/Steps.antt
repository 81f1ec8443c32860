-- ===== src/Json/Steps.antt =====
-- Steps that return, from the value that they return.
use qwen38_flash_next_sglang.Prelude.{◌≡◌, refl}
use qwen38_flash_next_sglang.Json.{Result, ok, err, ◌>>=◌}

-- Where two steps return, the first gives a value that the second returns from.
pub bind_ok {ℓ κ} :
    {Early : Type ℓ} {Late : Type κ} (first : Result Early) (next : Early → Result Late)
    {last : Late}
    → (first >>= next) ≡ ok last
    → (given : Early) × (first ≡ ok given) × (next given ≡ ok last)
bind_ok (err raised) next returned = cc
bind_ok (ok given) next returned = (given, refl, returned)

pub ok-inj {ℓ} : {A : Type ℓ} {a b : A} → ok a ≡ ok b → a ≡ b
ok-inj e = cc
