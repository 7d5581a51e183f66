-- ===== src/Rv64/Isel/Loaded.antt =====
-- Code that loads a constant into a scratch register first (src/backend/rv64/isel.hpp).
use Prim.Native.String.{String}
use ucas_cplab.Common.{
  ℕ, ◌≡◌, ◌⊎◌, inl, inr, refl, ap, ◌∙◌, false, some, [], ◌∷◌, ◌==◌, arith, update, update_other,
  update_same, Bool-cases,
}
use ucas_cplab.Rv64.Inst.{Inst, pseudo_li}
use ucas_cplab.Rv64.Memory.{Result}
use ucas_cplab.Rv64.Vm.{Host, Machine}
use ucas_cplab.Rv64.Isel.{reg_t0}
use ucas_cplab.Rv64.Isel.Binary.{scratch}
use ucas_cplab.Rv64.Isel.Runs.{Regs, Sets, pseudo_li-Sets, Computes-two, Computes-three}
use ucas_cplab.Rv64.Isel.RegReg.{Selects}

pub scratch_choice : (rd a : ℕ) → (scratch rd a ≡ rd) ⊎ (scratch rd a ≡ reg_t0)
scratch_choice rd a = elim (Bool-cases (rd == a)) [
  | inl e ↦ inr (rw e refl)
  | inr e ↦ inl (rw e refl)
]

-- The constant does not go where the operand is.
pub scratch_other : (rd a : ℕ) → (a == reg_t0) ≡ false → (a == scratch rd a) ≡ false
scratch_other rd a h = ground arith

module _ (host : Host) (call : String → Machine → Result Machine) (s : Machine) (a t rd imm v : ℕ)
    (choice : (t ≡ rd) ⊎ (t ≡ reg_t0)) (other : (a == t) ≡ false) where
  abbrev loaded : Regs
  loaded = update s.regs t imm

  -- The instruction after the load reads the operand and the constant.
  loaded_value : (f : ℕ → ℕ → ℕ) → f (loaded a) (loaded t) ≡ f (s.regs a) imm
  loaded_value f =
      ap (λ x. f x (loaded t)) (update_other s.regs t a imm other)
      ∙ ap (f (s.regs a)) (update_same s.regs t imm)

  pub loaded_op :
      (i : Inst) (f : ℕ → ℕ → ℕ)
      → Sets host call i rd (λ g. f (g a) (g t))
      → f (s.regs a) imm ≡ v
      → Selects host call (some (pseudo_li t imm ∷ i ∷ [])) s rd v
  loaded_op i f p e = (
    pseudo_li t imm ∷ i ∷ [],
    refl,
    Computes-two host call (pseudo_li t imm) i s t rd v (λ g. imm) (λ g. f (g a) (g t))
        (pseudo_li-Sets host call t imm) p choice (loaded_value f ∙ e),
  )

  pub loaded_then :
      (i j : Inst) (f : ℕ → ℕ → ℕ) (k : ℕ → ℕ)
      → Sets host call i rd (λ g. f (g a) (g t))
      → Sets host call j rd (λ g. k (g rd))
      → k (f (s.regs a) imm) ≡ v
      → Selects host call (some (pseudo_li t imm ∷ i ∷ j ∷ [])) s rd v
  loaded_then i j f k p q e = (
    pseudo_li t imm ∷ i ∷ j ∷ [],
    refl,
    Computes-three host call (pseudo_li t imm) i j s t rd v (λ g. imm) (λ g. f (g a) (g t))
        (λ g. k (g rd)) (pseudo_li-Sets host call t imm) p q choice
        (ap k (update_same loaded rd (f (loaded a) (loaded t)) ∙ loaded_value f) ∙ e),
  )
