-- ===== src/Artifact/Version/Provenance.antt =====
-- What `Generator.Validate` of internal/artifactgraph/domain/artifact.go asks for.
use mathlib.Core.Path.{subst}
use specforge.Prelude.{
  ◌≡◌, ◌≢◌, ◌↔◌, refl, true, ◌==◌, none, inl, inr, ==→eq, ==→ne, ne→==, eq→==, arith, Bool-cases,
  is_empty,
}
use specforge.Types.{generator_kind_valid, generated_by_inference, generated_by_analyzer}
use specforge.Artifact.Version.{Generator, validate_generator, missing_provenance}

-- Provenance of a known kind: a model's output names the prompt, the model, the provider and the
-- guardrail chain, an analyzer's names the analyzer.
pub record HasProvenance (g : Generator) : Type 0 where
  pub known : generator_kind_valid g.kind ≡ true
  pub inferred :
      g.kind ≡ generated_by_inference
      → (g.prompt_version ≢ "")
        × (g.model ≢ "")
        × (g.provider ≢ "")
        × (g.guardrail_chain_version ≢ "")
  pub analyzed : g.kind ≡ generated_by_analyzer → g.analyzer ≢ ""

nothing_missing :
    (g : Generator)
    → (is_empty (missing_provenance g) ≡ true) ↔ (
        (g.prompt_version ≢ "")
        × (g.model ≢ "")
        × (g.provider ≢ "")
        × (g.guardrail_chain_version ≢ ""))
unfolding missing_provenance
nothing_missing g = (
  λ h. (
    ==→ne g.prompt_version "" (ground (arith, h)),
    ==→ne g.model "" (ground (arith, h)),
    ==→ne g.provider "" (ground (arith, h)),
    ==→ne g.guardrail_chain_version "" (ground (arith, h)),
  ),
  λ n.
      rw
        (
          ne→== g.prompt_version "" n.0,
          ne→== g.model "" n.1,
          ne→== g.provider "" n.2,
          ne→== g.guardrail_chain_version "" n.3,
        )
        refl,
)

pub validate_generator-HasProvenance :
    (g : Generator) → validate_generator g ≡ none → HasProvenance g
unfolding validate_generator
validate_generator-HasProvenance g h = elim (Bool-cases (generator_kind_valid g.kind)) [
  | inr u ↦ cc (rw u at h)
  | inl k ↦ record {
    known = k;
    inferred = λ e. elim (Bool-cases (is_empty (missing_provenance g))) [
      | inl m ↦ (nothing_missing g).0 m
      | inr m ↦ cc (rw (k, eq→== g.kind generated_by_inference e, m) at h)
    ];
    analyzed = λ e. elim (Bool-cases (g.analyzer == "")) [
      | inr m ↦ ==→ne g.analyzer "" m
      | inl m ↦ cc (rw (k, e, m) at h)
    ];
  }
]

pub provenance-passes : (g : Generator) → HasProvenance g → validate_generator g ≡ none
unfolding validate_generator
provenance-passes g p = elim (Bool-cases (g.kind == generated_by_inference)) [
  | inl e ↦
      let kind = ==→eq g.kind generated_by_inference e in
      let known : generator_kind_valid generated_by_inference ≡ true =
        subst (λ k. generator_kind_valid k ≡ true) kind p.known in
      rw (kind, known, (nothing_missing g).1 (p.inferred kind)) refl
  | inr e ↦ elim (Bool-cases (g.kind == generated_by_analyzer)) [
    | inr f ↦ rw (p.known, e, f) refl
    | inl f ↦
        rw (p.known, e, f, ne→== g.analyzer "" (p.analyzed (==→eq g.kind generated_by_analyzer f)))
          refl
  ]
]
