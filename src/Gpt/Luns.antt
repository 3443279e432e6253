-- ===== src/Gpt/Luns.antt =====
-- The LUNs that prepare_boot_update of gpt-utils.cpp prepares.
use device_blackshark_penros.Base.{
  Bool, Bool-cases, List, Option, [], arith, false, inl, inr, length, length-append, ltb, none,
  some, suc, true, ℕ, ◌++◌, ◌+◌, ◌<◌, ◌||◌, ◌∷◌, ◌≡◌, ◌≤◌,
}
use device_blackshark_penros.Gpt.Device.{FilePath, Files}
use device_blackshark_penros.Gpt.Table.{is_left_out, ptn_swap_list, starts_with}
use device_blackshark_penros.Gpt.Update.{
  add_backup_lun, add_lun_to_update_list, backup_lun, is_listed, last_lun, lun_step, luns_from,
}

-- No path starts with an earlier one.
abbrev pub Apart : FilePath → List FilePath → Type 0
Apart lun [] = Unit {0}
Apart lun (p ∷ paths) = (starts_with lun p ≡ false) × Apart lun paths

abbrev pub Separate : List FilePath → Type 0
Separate [] = Unit {0}
Separate (lun ∷ luns) = Apart lun luns × Separate luns

Apart-snoc :
    (lun : FilePath) (luns : List FilePath) (path : FilePath)
    → Apart lun luns
    → starts_with lun path ≡ false
    → Apart lun (luns ++ path ∷ [])
Apart-snoc lun [] path h e = (e, tt)
Apart-snoc lun (p ∷ luns) path h e = (h.0, Apart-snoc lun luns path h.1 e)

||-false : (a b : Bool) → (a || b) ≡ false → (a ≡ false) × (b ≡ false)
||-false a b h = ground arith

Separate-snoc :
    (luns : List FilePath) (path : FilePath)
    → Separate luns
    → is_listed path luns ≡ false
    → Separate (luns ++ path ∷ [])
unfolding is_listed
Separate-snoc [] path h e = (tt, tt)
Separate-snoc (lun ∷ luns) path h e =
    let (now, later) = ||-false (starts_with lun path) (is_listed path luns) e in
    (Apart-snoc lun luns path h.0 now, Separate-snoc luns path h.1 later)

-- What the loop over the names keeps, while fewer than 25 LUNs can have been added.
pub record IsLunList (limit : ℕ) (luns : List FilePath) : Type 0 where
  pub separate : Separate luns
  pub within : length luns ≤ limit

add-IsLunList :
    (files : Files) (path : FilePath) (limit : ℕ) (luns : List FilePath)
    → limit < last_lun
    → IsLunList limit luns
    → IsLunList (suc limit) (add_lun_to_update_list files path luns)
unfolding add_lun_to_update_list
add-IsLunList files path limit luns room is =
    let searched : ltb (length luns) last_lun ≡ true = ground (arith, is.within) in
    elim (Bool-cases (files.exists path)) [
      | inr e ↦ rw e (record { separate = is.separate; within = omega (arith, is.within) })
      | inl e ↦
          rw (e, searched)
            (elim (Bool-cases (is_listed path luns)) [
              | inl listed ↦
                  rw listed (record { separate = is.separate; within = omega (arith, is.within) })
              | inr new ↦ rw new (record {
                separate = Separate-snoc luns path is.separate new;
                within = omega (arith, is.within, length-append luns (path ∷ []));
              })
            ])
    ]

widen : (limit : ℕ) (luns : List FilePath) → IsLunList limit luns → IsLunList (suc limit) luns
widen limit luns is = record { separate = is.separate; within = omega (arith, is.within) }

added :
    (files : Files) (o : Option FilePath) (limit : ℕ) (luns : List FilePath)
    → limit < last_lun
    → IsLunList limit luns
    → IsLunList (suc limit) (add_backup_lun files o luns)
added files none limit luns room is = widen limit luns is
added files (some path) limit luns room is = add-IsLunList files path limit luns room is

step-IsLunList :
    (files : Files) (name : List ℕ) (limit : ℕ) (luns : List FilePath)
    → limit < last_lun
    → IsLunList limit luns
    → IsLunList (suc limit) (lun_step files name luns)
unfolding lun_step
step-IsLunList files name limit luns room is = elim (Bool-cases (is_left_out true name)) [
  | inl left ↦ rw left (widen limit luns is)
  | inr tried ↦ rw tried (added files (backup_lun files name) limit luns room is)
]

luns_from-IsLunList :
    (files : Files) (names : List (List ℕ)) (limit : ℕ) (luns : List FilePath)
    → limit + length names ≤ last_lun
    → IsLunList limit luns
    → IsLunList (limit + length names) (luns_from files names luns)
unfolding luns_from
luns_from-IsLunList files [] limit luns room is = record {
  separate = is.separate;
  within = omega (arith, is.within);
}
luns_from-IsLunList files (name ∷ names) limit luns room is =
    let rest =
      luns_from-IsLunList files names (suc limit) (lun_step files name luns) (omega arith)
        (step-IsLunList files name limit luns (omega arith) is) in
    record { separate = rest.separate; within = omega (arith, rest.within) }

-- Whatever the partitions of the list resolve to, at most 21 LUNs are gathered, so that each is
-- searched for before it is added and fits in the list of 26, and no path starts with the one of a
-- LUN before it: none is prepared twice.
pub update_luns-IsLunList : (files : Files) → IsLunList 21 (luns_from files ptn_swap_list [])
update_luns-IsLunList files =
    luns_from-IsLunList files ptn_swap_list 0 [] (omega arith)
      (record { separate = tt; within = omega arith })
