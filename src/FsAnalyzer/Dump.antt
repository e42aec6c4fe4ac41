-- ===== src/FsAnalyzer/Dump.antt =====
-- lib/FSAnalyzer.cpp: the dump of the accesses, in JSON or in CSV.
use fsracer.Prelude.{List, [], ◌∷◌, ◌++◌, Text, codes}
use fsracer.Operation.{eff_to_string}
use fsracer.FilePath.{FilePath, native}
use fsracer.FsAnalyzer.{FsAccess, EffectTable, OutFormat}

-- What is put behind an element: a comma, unless it is the last one.
abbrev pub comma : {A : Type 0} → List A → Text
comma [] = []
comma (_ ∷ _) = codes ","

unfoldable pub accesses_to_json : List FsAccess → Text
unfolding eff_to_string
accesses_to_json [] = []
accesses_to_json (a ∷ rest) =
    codes "    {\n      \"block\": \""
    ++ a.event_id
    ++ codes "\",\n      \"effect\": \""
    ++ eff_to_string a.effect_type
    ++ codes "\"\n    }"
    ++ comma rest
    ++ codes "\n"
    ++ accesses_to_json rest

unfoldable pub entries_to_json : EffectTable → Text
unfolding accesses_to_json native
entries_to_json [] = []
entries_to_json ((p, accesses) ∷ rest) =
    codes "  \""
    ++ native p
    ++ codes "\": [\n"
    ++ accesses_to_json accesses
    ++ codes "  ]"
    ++ comma rest
    ++ codes "\n"
    ++ entries_to_json rest

unfoldable pub dump_json : EffectTable → Text
unfolding entries_to_json
dump_json table = codes "{\n" ++ entries_to_json table ++ codes "}\n"

unfoldable pub accesses_to_csv : FilePath → List FsAccess → Text
unfolding native eff_to_string
accesses_to_csv p [] = []
accesses_to_csv p (a ∷ rest) =
    native p
    ++ codes ","
    ++ a.event_id
    ++ codes ","
    ++ eff_to_string a.effect_type
    ++ codes "\n"
    ++ accesses_to_csv p rest

unfoldable pub dump_csv : EffectTable → Text
unfolding accesses_to_csv
dump_csv [] = []
dump_csv ((p, accesses) ∷ rest) = accesses_to_csv p accesses ++ dump_csv rest

-- What `DumpOutput` writes.
unfoldable pub dump_output : OutFormat → EffectTable → Text
unfolding dump_json dump_csv
dump_output OutFormat.json table = dump_json table
dump_output OutFormat.csv table = dump_csv table
