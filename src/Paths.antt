-- ===== src/Paths.antt =====
-- src/transfer/transfer-paths.ts. The functions of `node:path` are a parameter.
use Prim.Native.String.{◌++◌}
use vidyut.Prelude.{String}

pub record NodePath : Type 0 where
  pub join : String → String → String
  pub dirname : String → String
  pub basename : String → String

-- `.${basename(destinationPath)}.${fileId}.vidyut-part`, beside the destination
unfoldable pub partial_path_for : NodePath → String → String → String
partial_path_for p destination_path file_id =
    p.join (p.dirname destination_path)
      ("." ++ p.basename destination_path ++ "." ++ file_id ++ ".vidyut-part")
