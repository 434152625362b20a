-- ===== src/Output/TextWriter.antt =====
-- src/output/textwriter/textwriter.go: the writer of indented, spaced lines.
pub mod Lines
use eyot.Prelude.{
  ℕ, zero, suc, ◌≡◌, refl, sym, ap, ◌∙◌, Bool, true, false, ◌&&◌, List, [], ◌∷◌, ◌++◌, append_assoc,
  append-nil, Text, codes, ℤ, succ, pred, runs, if◌then◌else◌,
}

pub record LineComponent : Type 0 where
  pub content : Text
  pub space : Bool

-- The writer behind it stands for what was written to it.
pub record W : Type 0 where
  pub written : Text
  pub cpts : List LineComponent
  pub indentation : ℤ
  pub no_space : Bool
  pub forced_space : Bool

abbrev pub new_writer : Text → W
new_writer out = record {
  written = out;
  cpts = [];
  indentation = ℤ.pos 0;
  no_space = false;
  forced_space = false;
}

unfoldable pub force_space : W → W
force_space w = record w { forced_space = true }

unfoldable pub suppress_next_space : W → W
suppress_next_space w = record w { no_space = true }

-- The unexported `addComponent`
unfoldable pub add_line_component : W → LineComponent → W
add_line_component w cpt =
    let cpt' =
      if w.forced_space
      then record cpt { space = true }
      else if w.no_space
      then record cpt { space = false }
      else cpt in
    record w { no_space = false; forced_space = false; cpts = w.cpts ++ (cpt' ∷ []) }

unfoldable pub add_component : W → Text → W
unfolding add_line_component
add_component w s = add_line_component w (record { content = s; space = true })

unfoldable pub add_components : W → List Text → W
unfolding add_component
add_components w [] = w
add_components w (s ∷ ss) = add_components (add_component w s) ss

unfoldable pub add_component_no_space : W → Text → W
unfolding add_line_component
add_component_no_space w s = add_line_component w (record { content = s; space = false })

unfoldable pub indent : W → W
indent w = record w { indentation = succ w.indentation }

unfoldable pub unindent : W → W
unindent w = record w { indentation = pred w.indentation }

unfoldable pub write_raw : W → Text → W
write_raw w src = record w { written = w.written ++ src }

-- The two loops of `EndLine`
unfoldable pub write_indent : ℕ → Text
write_indent zero = []
write_indent (suc n) = codes "    " ++ write_indent n

unfoldable pub write_cpts : Bool → List LineComponent → Text
write_cpts is_first [] = []
write_cpts is_first (cpt ∷ cpts) =
    let rest = write_cpts false cpts in
    if is_first
    then cpt.content ++ rest
    else if cpt.space
    then b' ' ∷ cpt.content ++ rest
    else cpt.content ++ rest

unfoldable pub end_line : W → W
unfolding write_indent write_cpts
end_line w = elim w.cpts [
  | [] ↦ record w { written = w.written ++ (b'\n' ∷ []) }
  | _ ∷ _ ↦ record w {
    written =
        w.written
        ++ (write_indent (runs w.indentation) ++ (write_cpts true w.cpts ++ (b'\n' ∷ [])));
    cpts = [];
  }
]
