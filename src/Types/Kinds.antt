-- ===== src/Types/Kinds.antt =====
-- A case split on a memory type: one of the constants that the code tests for, or none of them.
use helix_memory.Prelude.{false, ◌≡◌, str_eq, eq_iff, Bool-cases, inl, inr}
use helix_memory.Types.MemoryType
use helix_memory.Types.MemoryType.{MemoryType}

pub data Kind (type : MemoryType) : Type 0 where
  is_fact : type ≡ MemoryType.fact → Kind type
  is_graph : type ≡ MemoryType.graph → Kind type
  is_core : type ≡ MemoryType.core → Kind type
  is_temporal : type ≡ MemoryType.temporal → Kind type
  is_episodic : type ≡ MemoryType.episodic → Kind type
  is_procedural : type ≡ MemoryType.procedural → Kind type
  is_other :
      str_eq type MemoryType.fact ≡ false
      → str_eq type MemoryType.graph ≡ false
      → str_eq type MemoryType.core ≡ false
      → str_eq type MemoryType.temporal ≡ false
      → str_eq type MemoryType.episodic ≡ false
      → str_eq type MemoryType.procedural ≡ false
      → Kind type

pub kind : (type : MemoryType) → Kind type
kind type = elim (Bool-cases (str_eq type MemoryType.fact)) [
  | inl f ↦ is_fact ((eq_iff type _).0 f)
  | inr f ↦ elim (Bool-cases (str_eq type MemoryType.graph)) [
    | inl g ↦ is_graph ((eq_iff type _).0 g)
    | inr g ↦ elim (Bool-cases (str_eq type MemoryType.core)) [
      | inl c ↦ is_core ((eq_iff type _).0 c)
      | inr c ↦ elim (Bool-cases (str_eq type MemoryType.temporal)) [
        | inl t ↦ is_temporal ((eq_iff type _).0 t)
        | inr t ↦ elim (Bool-cases (str_eq type MemoryType.episodic)) [
          | inl e ↦ is_episodic ((eq_iff type _).0 e)
          | inr e ↦ elim (Bool-cases (str_eq type MemoryType.procedural)) [
            | inl p ↦ is_procedural ((eq_iff type _).0 p)
            | inr p ↦ is_other f g c t e p
          ]
        ]
      ]
    ]
  ]
]
