-- ===== src/Agent/Machine/Store.antt =====
-- The files as a map from paths, and paths below one directory.
use lenker_panel.Base.{
  ◌≡◌, refl, String, false, some, [], ◌∷◌, str_eq, eq_iff, arith, Bool-cases, inl, inr,
  if◌then◌else◌,
}
use lenker_panel.Agent.Machine.{Body, Files, Host, with_file, look_up}

pub look_up-with_file :
    (path p : String) (body : Body) (files : Files)
    → look_up p (with_file path body files) ≡ (if str_eq path p then some body else look_up p files)
look_up-with_file path p body [] = refl
look_up-with_file path p body ((q, b) ∷ files) =
    ground (arith, eq_iff path p, eq_iff q path, eq_iff q p, look_up-with_file path p body files)

-- Different names below a directory are different files, as with filepath.Join and clean names.
abbrev pub Separates : Host → Type 0
Separates host = (dir a b : String) → host.join dir a ≡ host.join dir b → a ≡ b

pub join-other :
    (host : Host)
    → Separates host
    → (dir a b : String) → str_eq a b ≡ false
    → str_eq (host.join dir a) (host.join dir b) ≡ false
join-other host sep dir a b h = elim (Bool-cases (str_eq (host.join dir a) (host.join dir b))) [
  | inl e ↦ cc (h, (eq_iff a b).1 (sep dir a b ((eq_iff (host.join dir a) (host.join dir b)).0 e)))
  | inr e ↦ e
]
