-- ===== src/Riscof/Sisrv/Root.antt =====
-- The paths that __init__ of riscof_sisrv.py derives from the place of the plugin.
use sisrv_platform.Prelude.{
  ◌≡◌, refl, ◌∙◌, ap, subst, true, Option, none, some, List, [], ◌∷◌, ◌++◌, append_assoc,
  append-nil, arith, Text, codes, All, All-append, if◌then◌else◌,
}
use sisrv_platform.Riscof.Paths.{is_abs, join_path, keep_part, keep_parts, reverse_onto, abs_path}
use sisrv_platform.Riscof.Paths.Laws.{
  IsName, path_of_names, Solid, Solid-of_IsName, join_path-part, norm_path-parts, leading-names,
  keep_parts-names, keep_parts-append, keep_part-up,
}
use sisrv_platform.Riscof.Sisrv.{
  Lookup, Plugin, sisrv_init, four_up, elf2sisrv_of, default_sim_of, dir_or_dot,
}

All-map {ℓ} :
    {A : Type ℓ} {P Q : A → Type 0} → ((x : A) → P x → Q x) → (xs : List A) → All P xs → All Q xs
All-map f [] _ = tt
All-map f (x ∷ xs) (p, ps) = (f x p, All-map f xs ps)

reverse_onto-append {ℓ} :
    {A : Type ℓ} (xs ys done : List A)
    → reverse_onto (xs ++ ys) done ≡ reverse_onto ys (reverse_onto xs done)
reverse_onto-append [] ys done = refl
reverse_onto-append (x ∷ xs) ys done = reverse_onto-append xs ys (x ∷ done)

reverse_onto-back {ℓ} :
    {A : Type ℓ} (xs done more : List A)
    → reverse_onto (reverse_onto xs done) more ≡ reverse_onto done (xs ++ more)
reverse_onto-back [] done more = refl
reverse_onto-back (x ∷ xs) done more = reverse_onto-back xs (x ∷ done) more

-- An absolute path whose parts leave the names of kept, the last one first.
record Leads (path : Text) (kept : List Text) : Type 0 where
  first : Text
  others : List Text
  written : path ≡ path_of_names (first ∷ others)
  solid : All Solid (first ∷ others)
  leaves : keep_parts true (first ∷ others) [] ≡ kept

dots_Solid : Solid (codes "..")
dots_Solid = (refl, (refl, (refl, tt)))

-- A part more.
Leads-join :
    {path : Text} {kept : List Text} (part : Text)
    → Solid part
    → Leads path kept
    → Leads (join_path path part) (keep_part true part kept)
Leads-join part p h = record {
  first = h.first;
  others = h.others ++ part ∷ [];
  written =
      ap (λ (t : Text). join_path t part) h.written
      ∙ join_path-part h.first h.others part h.solid.0 h.solid.1 p;
  solid = All-append Solid (h.first ∷ h.others) (part ∷ []) h.solid (p, tt);
  leaves =
      keep_parts-append true (h.first ∷ h.others) (part ∷ []) []
      ∙ (unfold keep_parts in ap (keep_part true part) h.leaves);
}

-- One directory up.
Leads-up :
    {path : Text} (name : Text) {kept : List Text}
    → IsName name
    → Leads path (name ∷ kept)
    → Leads (join_path path (codes "..")) kept
Leads-up {path} name {kept} n h =
    subst (Leads (join_path path (codes ".."))) (keep_part-up name kept n)
      (Leads-join (codes "..") dots_Solid h)

Leads-names :
    (name : Text) (names : List Text)
    → All IsName (name ∷ names)
    → Leads (path_of_names (name ∷ names)) (reverse_onto (name ∷ names) [])
Leads-names name names h = record {
  first = name;
  others = names;
  written = refl;
  solid = All-map Solid-of_IsName (name ∷ names) h;
  leaves = keep_parts-names true (name ∷ names) [] h;
}

abs_path-Leads :
    (cwd path name : Text) (names : List Text)
    → Leads path (reverse_onto (name ∷ names) [])
    → abs_path cwd path ≡ path_of_names (name ∷ names)
unfolding abs_path
abs_path-Leads cwd path name names h =
    let parts : Text = path_of_names (h.first ∷ h.others) in
    let back : reverse_onto (keep_parts true (h.first ∷ h.others) []) [] ≡ name ∷ names =
      rw h.leaves (reverse_onto-back (name ∷ names) [] [] ∙ append-nil (name ∷ names)) in
    let absolute : is_abs parts ≡ true = (leading-names h.first h.others h.solid.0).1 in
    rw (h.written, absolute)
      (norm_path-parts h.first h.others name names h.solid.0
        (All-map (λ (t : Text) solid. solid.1) h.others h.solid.1) back)

-- Four directories up from four names below a root.
four_up-names :
    (cwd r : Text) (root : List Text) (a b c d : Text)
    → All IsName (r ∷ root)
    → All IsName (a ∷ b ∷ c ∷ d ∷ [])
    → abs_path cwd (four_up (path_of_names (r ∷ (root ++ a ∷ b ∷ c ∷ d ∷ []))))
      ≡ path_of_names (r ∷ root)
four_up-names cwd r root a b c d names below =
    let (a_name, (b_name, (c_name, (d_name, _)))) = below in
    let start : Leads (path_of_names (r ∷ (root ++ a ∷ b ∷ c ∷ d ∷ [])))
        (d ∷ c ∷ b ∷ a ∷ reverse_onto (r ∷ root) []) =
      subst (Leads (path_of_names (r ∷ (root ++ a ∷ b ∷ c ∷ d ∷ []))))
        (reverse_onto-append (r ∷ root) (a ∷ b ∷ c ∷ d ∷ []) [])
        (Leads-names r (root ++ a ∷ b ∷ c ∷ d ∷ [])
          (All-append IsName (r ∷ root) (a ∷ b ∷ c ∷ d ∷ []) names below)) in
    abs_path-Leads cwd _ r root
      (Leads-up a a_name (Leads-up b b_name (Leads-up c c_name (Leads-up d d_name start))))

abbrev join_all : Text → List Text → Text
join_all path [] = path
join_all path (part ∷ parts) = join_all (join_path path part) parts

join_all-names :
    (r : Text) (root parts : List Text)
    → All Solid (r ∷ root)
    → All Solid parts
    → join_all (path_of_names (r ∷ root)) parts ≡ path_of_names (r ∷ (root ++ parts))
join_all-names r root [] h _ = rw append-nil
join_all-names r root (part ∷ parts) (h, hs) (p, ps) = rw (join_path-part r root part h hs p) (
    join_all-names r (root ++ part ∷ []) parts
      (All-append Solid (r ∷ root) (part ∷ []) (h, hs) (p, tt)) ps
    ∙ ap (λ (t : List Text). path_of_names (r ∷ t)) (append_assoc root (part ∷ []) parts))

module _ (cwd : Text) (environ config : Lookup) (ispec pspec : Text)
    (config_dir : Option Text) where
  abbrev plugin : Plugin
  plugin = sisrv_init cwd environ config ispec pspec config_dir

  -- Where the plugin lies four directories below a root, the converter is the root's
  -- verification/riscof/scripts/elf2sisrv.py; and where the configuration names no simulator, the
  -- simulator is the root's build/sim_sisPlatformTop.
  pub sisrv_init-root :
      (r : Text) (root : List Text) (a b c d : Text)
      → All IsName (r ∷ root)
      → All IsName (a ∷ b ∷ c ∷ d ∷ [])
      → plugin.pluginpath ≡ path_of_names (r ∷ (root ++ a ∷ b ∷ c ∷ d ∷ []))
      → config (codes "simulator") ≡ none
      → (plugin.elf2sisrv
          ≡ path_of_names (
              r
              ∷ (root
                  ++ codes "verification"
                    ∷ codes "riscof"
                    ∷ codes "scripts"
                    ∷ codes "elf2sisrv.py"
                    ∷ [])))
        × (plugin.dut_exe
            ≡ path_of_names (r ∷ (root ++ codes "build" ∷ codes "sim_sisPlatformTop" ∷ [])))
  unfolding sisrv_init
  sisrv_init-root r root a b c d names below place no_simulator =
      let solid : All Solid (r ∷ root) = All-map Solid-of_IsName (r ∷ root) names in
      let above : abs_path cwd (four_up plugin.pluginpath) ≡ path_of_names (r ∷ root) =
        ap (λ (t : Text). abs_path cwd (four_up t)) place
        ∙ four_up-names cwd r root a b c d names below in
      let sim : default_sim_of (abs_path cwd (four_up plugin.pluginpath))
          ≡ path_of_names (r ∷ (root ++ codes "build" ∷ codes "sim_sisPlatformTop" ∷ [])) =
        ap default_sim_of above
        ∙ join_all-names r root (codes "build" ∷ codes "sim_sisPlatformTop" ∷ []) solid
            (ground arith) in
      (
        ap elf2sisrv_of above
            ∙ join_all-names r root
                (codes "verification"
                  ∷ codes "riscof"
                  ∷ codes "scripts"
                  ∷ codes "elf2sisrv.py"
                  ∷ [])
                solid (ground arith),
        ap (λ (o : Option Text). absolute (simulator_path o)) no_simulator
            ∙ ap absolute sim
            ∙ rw
                ((leading-names r (root ++ codes "build" ∷ codes "sim_sisPlatformTop" ∷ [])
                  solid.0).1)
                refl,
      )
    where
      absolute : Text → Text
      absolute path =
          if is_abs path then path else abs_path cwd (join_path (dir_or_dot config_dir) path)

      simulator_path : Option Text → Text
      simulator_path none = default_sim_of (abs_path cwd (four_up plugin.pluginpath))
      simulator_path (some path) = path
