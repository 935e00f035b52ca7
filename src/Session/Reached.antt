-- ===== src/Session/Reached.antt =====
-- What is so in every state that a session reaches.
use os_ex.Common.{
  Ensures, Ensures-bind, ℕ, ◌+◌, ◌<◌, ◌≤◌, ◌^◌, ◌≡◌, refl, subst, Bool-cases, inl, inr, some, [],
  append-nil, take, drop, done, sym,
}
use os_ex.Common.Int.{pos}
use os_ex.Block.{BlockId, Buffer, Text}
use os_ex.Manager.Layout.{IsValid}
use os_ex.Read.{Call, gives, manager_cache}
use os_ex.Read.File.{read_file}
use os_ex.Read.Slice.{IsBytes, read_file-slice}
use os_ex.Read.Cached.{Backed, manager_safe}
use os_ex.Handlers.{System, CallName, Fs, log_call, caching_full_path, refering_logfile, unless_log}
use os_ex.Handlers.Reading.{read_stated, caching_read}
use os_ex.Session.{Reaches, begins, serves}
use os_ex.Session.Kept.{Steady, Serving, log_call-Serving}
use os_ex.Session.Handled.{handle-Keeps}

module _ (sys : System) (content : BlockId → Buffer) (a b c : ℕ) (ha : 1 ≤ a) (hc : 1 ≤ c)
    (steady : Steady sys content) (origin : Fs sys)
    (v : IsValid (Backed content) a b c origin.cache_manager) where
  -- In every state that requests lead to, whatever they are and in whatever order, the root and
  -- the path of the log are those of the start, the log has only grown at its end, and the
  -- cache is well formed, with sections of the sizes of the start, and holds nothing but data
  -- of the files. The cache was so at the start, with no empty new or old section, and the size
  -- of each read fits a `size_t`. The files stay as they are: on every descriptor that `fstat`
  -- succeeds on, the file has fewer than 2 ^ 31 bytes and a block size above 0, `pread` of a
  -- whole block gives what the file has of it, `st_size` is its length, and the inode as an
  -- `int` (its low 32 bits) and the number of a block decide the data of the block, so that no
  -- two files share such an inode unless they have the same blocks.
  pub Reaches-Serving :
      (now : Fs sys) → Reaches sys origin now → Serving sys content a b c origin now
  Reaches-Serving now begins = record {
    root = refl;
    log_path = refl;
    lines = [];
    logged = sym (append-nil origin.logfile);
    valid = v;
  }
  Reaches-Serving now (serves {now = before} path q sized e) =
      let s = Reaches-Serving before path in
      subst (Ensures (λ o. (fs : Fs sys) → o ≡ some fs → Serving sys content a b c origin fs)) e
        (handle-Keeps sys content a b c ha hc steady origin q before sized s) now refl

  read_stated-IsBytes :
      (fs : Fs sys) (path : Text) (fh size offset : ℕ) (att : sys.Attributes) (w : sys.World)
      → sys.fstat fh fs.world ≡ (gives att, w)
      → IsValid (Backed content) a b c fs.cache_manager
      → size + offset < 2 ^ 64
      → Ensures
          (λ r. IsBytes (take size (drop offset (steady.file att))) r.0)
          (read_stated sys path fh size (pos offset) (sys.fstat fh fs.world) fs)
  unfolding read_stated
  read_stated-IsBytes fs path fh size offset att w e valid room =
      let bytes = take size (drop offset (steady.file att)) in
      let pread = sys.pread w fh in
      let st = sys.stat_of att in
      rw e (
        Ensures-bind (λ (r : Call Buffer × Fs sys). IsBytes bytes r.0)
          (read_file manager_cache pread st path size (pos offset) fs.cache_manager) _
          (λ x runs. subst (Ensures (λ r. IsBytes bytes r.0)) runs (
            read_file-slice manager_cache pread st path content (manager_safe content a b c ha hc)
              (steady.file att) (steady.shows fh fs.world w att e) (steady.sized att) size offset
              fs.cache_manager room valid)))

  -- Whatever requests came before, wherever `caching_read` goes on to bytes, from any offset,
  -- they are exactly the bytes of the file from there on, as many as are asked for or fewer at
  -- its end. The cache was well formed at the start, with no data but that of the files and no
  -- empty new or old section, `fstat` succeeds, and the request fits a `size_t`, as did those
  -- before. The files stay as they are: on every descriptor that `fstat` succeeds on, the file
  -- has fewer than 2 ^ 31 bytes and a block size above 0, `pread` of a whole block gives what
  -- the file has of it, `st_size` is its length, and the inode as an `int` (its low 32 bits)
  -- and the number of a block decide the data of the block, so that no two files share such an
  -- inode unless they have the same blocks.
  pub caching_read-bytes :
      (now after : Fs sys) (path : Text) (fh size offset : ℕ) (att : sys.Attributes) (w : sys.World)
      (out : Buffer)
      → Reaches sys origin now
      → size + offset < 2 ^ 64
      → sys.fstat fh (log_call sys CallName.read now).world ≡ (gives att, w)
      → caching_read sys path fh size (pos offset) now ≡ done (gives out, after)
      → out ≡ take size (drop offset (steady.file att))
  unfolding caching_read unless_log
  caching_read-bytes now after path fh size offset att w out reached room e runs =
      let Q =
        λ (r : Call Buffer × Fs sys). IsBytes (take size (drop offset (steady.file att))) r.0 in
      let logged = log_call sys CallName.read now in
      subst (Ensures Q) runs (
        Ensures-bind Q (caching_full_path sys path logged) _ (λ full _.
          elim (Bool-cases (refering_logfile sys full logged)) [
            | inl log ↦ rw log tt
            | inr other ↦ rw other (
                read_stated-IsBytes logged path fh size offset att w e
                  (log_call-Serving sys content a b c origin CallName.read now
                    (Reaches-Serving now reached)).valid
                  room)
          ]))
