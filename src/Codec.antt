-- ===== src/Codec.antt =====
-- What the program takes from outside this repository: SHA-256, the S2 compression, the archive
-- format behind Go's archive/tar, and regular expressions. They are parameters of the model.
use dateilager.Prelude.{ℕ, ◌≡◌, Bool, List, [], Bytes}
use dateilager.Result.{Result, ok}
use dateilager.Db.Schema.{Hash}

-- tar.Header with the content that follows it, as far as the program sets and reads them.
pub record TarEntry : Type 0 where
  pub name : Bytes
  pub mode : ℕ
  pub type_flag : ℕ
  pub link_name : Bytes
  pub content : Bytes

pub record Codec : Type 0 where
  -- sha256.Sum256
  pub hash_content : Bytes → Hash
  -- s2.Writer and s2.Reader over one content
  pub encode : Bytes → Bytes
  pub decode : Bytes → Result Bytes
  -- tar.Writer over an s2.Writer; the reader gives the entries up to io.EOF, or an error
  pub write_tar : List TarEntry → Bytes
  pub read_tar : Bytes → Result (List TarEntry)
  -- whether WriteHeader and Write take an entry; a link's target with a zero byte is none, for example
  pub takes : TarEntry → Bool
  -- sort.Slice by keys: the places of the sorted items, where equal keys may come in any order
  pub sort_order : List Bytes → List ℕ
  -- regexp.MustCompile, which panics on a bad pattern, and MatchString
  pub is_pattern : Bytes → Bool
  pub matches : Bytes → Bytes → Bool

-- What the program relies on: reading gives back what was written, and no bytes are an empty archive.
pub record IsLawful (c : Codec) : Type 0 where
  pub decode-encode : (content : Bytes) → c.decode (c.encode content) ≡ ok content
  pub read_tar-write_tar : (entries : List TarEntry) → c.read_tar (c.write_tar entries) ≡ ok entries
  pub read_tar-nil : c.read_tar [] ≡ ok []
