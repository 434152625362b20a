-- ===== src/Output/TextWriter/Lines.antt =====
-- `EndLine` of src/output/textwriter/textwriter.go on a line of components.
use eyot.Prelude.{true, false, List, Text, ℤ}
use eyot.Output.TextWriter.{LineComponent, W}

abbrev spaced : Text → LineComponent
spaced s = record { content = s; space = true }

-- A writer where no flag is set.
abbrev pub line_of : Text → ℤ → List LineComponent → W
line_of out n cs = record {
  written = out;
  cpts = cs;
  indentation = n;
  no_space = false;
  forced_space = false;
}
