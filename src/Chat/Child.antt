-- ===== src/Chat/Child.antt =====
-- MP4/process.cpp: a filter process, which answers whether two clients accept each other. `load` is the
-- dynamic linker: the filter of a shared object, `none` if it cannot be opened or has none, where an
-- `assert` fails or a null pointer is called.
use ntu_sp17fall.Base.{
  ℕ, ◌≤◌, ◌≡◌, refl, not, ◌&&◌, Option, none, some, ℤ, pos, int_eq, Text, codes, ◌++◌,
  if◌then◌else◌, ◌==◌, arith, Bool-cases, inl, inr,
}
use ntu_sp17fall.Chat.{User}

-- A second filter is asked only if the first one accepts. `name_one` and `name_two` are what the server
-- writes, and the result is the byte that is written.
unfoldable pub child_process : (Text → Option (User → ℤ)) → Text → User → Text → User → Option ℕ
child_process load name_one one name_two two = elim (load (codes "./" ++ name_one)) [
  | none ↦ none
  | some filter_one ↦
      if int_eq (filter_one two) (pos 0) then some 0 else elim (load (codes "./" ++ name_two)) [
        | none ↦ none
        | some filter_two ↦ some (if int_eq (filter_two one) (pos 0) then 0 else 1)
      ]
]

-- Where both filters load, the process answers, with a byte that the server's `assert` accepts, and the
-- answer is 1 exactly if each client's filter accepts the other client.
pub child_process_lem :
    (load : Text → Option (User → ℤ)) (name_one name_two : Text) (one two : User) (f g : User → ℤ)
    → load (codes "./" ++ name_one) ≡ some f
    → load (codes "./" ++ name_two) ≡ some g
    → (a : ℕ) × (child_process load name_one one name_two two ≡ some a)
      × (a ≤ 1)
      × ((a == 1) ≡ not (int_eq (f two) (pos 0)) && not (int_eq (g one) (pos 0)))
unfolding child_process
child_process_lem load name_one name_two one two f g e h =
    elim (Bool-cases (int_eq (f two) (pos 0))) [
      | inl refused ↦ (0, rw (child_process, e, refused) refl, omega arith, ground arith)
      | inr asked ↦ elim (Bool-cases (int_eq (g one) (pos 0))) [
        | inl refused ↦
            (0, rw (child_process, e, asked, h, refused) refl, omega arith, ground arith)
        | inr accepted ↦
            (1, rw (child_process, e, asked, h, accepted) refl, omega arith, ground arith)
      ]
    ]
