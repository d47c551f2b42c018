-- ===== src/Client/SshKey.antt =====
-- internal/client/sshkey.go: the device's key pair. Key generation and the text
-- formats of keys are outside: what they come to is given.
use Prim.Native.String.{◌++◌}
use oh_my_lan.Prelude.{
  ◌≡◌, refl, sym, ap, ◌∙◌, String, false, ◌==◌, Option, none, some, inl, inr, Bool-cases,
  if◌then◌else◌,
}
use oh_my_lan.Exec.{Result, ok, err, Exec, pure, raise, refuse_if, ◌>>=◌, ◌>>◌}
use oh_my_lan.Text.{trim_space, trim_right, is_empty}
use oh_my_lan.Text.Trim.{trim_space-append, is_empty-append, not_empty}
use text.Mathlib.TextLemmas.{append_assoc}
use oh_my_lan.Files.{FileSystem, IsLawful, ReadResult, missing, unreadable, content, fails}

pub data SshKeyError : Type 0 where
  no_data_dir no_directory no_key cannot_write_private no_public_key cannot_write_public :
      SshKeyError

-- what the generation of a key pair comes to: the PEM text, and what the public key comes to as a
-- line of authorized_keys (`ssh.NewPublicKey` may fail)
pub record KeyPair : Type 0 where
  pub pem : String
  pub authorized_key : Option String

-- the line of a public key, if there is one, is not blank
abbrev pub IsPublicKey : Option String → Type 0
IsPublicKey none = Unit
IsPublicKey (some key) = is_empty (trim_space key) ≡ false

abbrev pub private_path : String → String
private_path data_dir = data_dir ++ "/ssh_key"

abbrev pub public_path : String → String
public_path data_dir = private_path data_dir ++ ".pub"

-- `readPubFromDisk`; an error is the empty text too.
unfoldable pub read_pub : ReadResult → String
unfolding trim_space
read_pub missing = ""
read_pub unreadable = ""
read_pub (content text) = trim_space text

abbrev pub public_line : String → String
public_line key = trim_space key ++ " oml-managed"

module _ (F : FileSystem) where
  unfoldable pub new_public : String → Option String → Exec F.State SshKeyError (String × String)
  new_public data_dir none = raise no_public_key
  new_public data_dir (some key) = do
    (λ s. fails cannot_write_public (F.write (public_path data_dir) (public_line key ++ "\n") s))
    pure (private_path data_dir, public_line key)

  unfoldable pub new_key : String → Option KeyPair → Exec F.State SshKeyError (String × String)
  unfolding new_public
  new_key data_dir none = raise no_key
  new_key data_dir (some k) = do
    (λ s. fails cannot_write_private (F.write (private_path data_dir) k.pem s))
    new_public data_dir k.authorized_key

  unfoldable pub key_of :
      String → Option KeyPair → String → Exec F.State SshKeyError (String × String)
  unfolding new_key
  key_of data_dir fresh line =
      if line == "" then new_key data_dir fresh else pure (private_path data_dir, line)

  -- `EnsureSSHKey`
  unfoldable pub ensure_ssh_key :
      String → Option KeyPair → Exec F.State SshKeyError (String × String)
  unfolding key_of read_pub
  ensure_ssh_key data_dir fresh = do
    refuse_if (data_dir == "") no_data_dir
    (λ s. fails no_directory (F.make_dir data_dir s))
    (λ s. key_of data_dir fresh (read_pub (F.read (public_path data_dir) s)) s)

-- the line of a new key, as it is read from the file
read_pub-line :
    (key : String)
    → is_empty (trim_space key) ≡ false
    → read_pub (content (public_line key ++ "\n")) ≡ public_line key
unfolding read_pub trim_right
read_pub-line key full =
    ap trim_space (append_assoc (trim_space key) " oml-managed" "\n")
    ∙ trim_space-append key " oml-managed\n" full refl

public_line-full :
    (key : String) → is_empty (trim_space key) ≡ false → public_line key == "" ≡ false
public_line-full key full =
    not_empty (public_line key) (is_empty-append (trim_space key) " oml-managed" ∙ rw full refl)

module _ (F : FileSystem) (law : IsLawful F) where
  -- the public key file holds what was returned
  abbrev KeepsKey : String → Result SshKeyError (String × String) × F.State → Type 0
  KeepsKey data_dir (ok (path, line), t) =
      (path ≡ private_path data_dir)
      × (read_pub (F.read (public_path data_dir) t) ≡ line)
      × (line == "" ≡ false)
  KeepsKey data_dir (err e, t) = Unit

  new_public-KeepsKey :
      (data_dir : String) (o : Option String) (s : F.State)
      → IsPublicKey o
      → KeepsKey data_dir (new_public F data_dir o s)
  unfolding new_public ◌>>=◌ pure
  new_public-KeepsKey data_dir none s full = tt
  new_public-KeepsKey data_dir (some key) s full =
      elim (Bool-cases (F.write (public_path data_dir) (public_line key ++ "\n") s).0) [
        | inl bad ↦ rw bad tt
        | inr written ↦ rw written (
          refl,
          rw (law.read-write _ _ _ written) (read_pub-line key full),
          public_line-full key full,
        )
      ]

  new_key-KeepsKey :
      (data_dir : String) (k : KeyPair) (s : F.State)
      → IsPublicKey k.authorized_key
      → KeepsKey data_dir (new_key F data_dir (some k) s)
  unfolding new_key ◌>>=◌
  new_key-KeepsKey data_dir k s full =
      elim (Bool-cases (F.write (private_path data_dir) k.pem s).0) [
        | inl bad ↦ rw bad tt
        | inr kept ↦ rw kept (new_public-KeepsKey data_dir k.authorized_key _ full)
      ]

  key_of-KeepsKey :
      (data_dir : String) (k : KeyPair) (s : F.State)
      → IsPublicKey k.authorized_key
      → KeepsKey data_dir
          (key_of F data_dir (some k) (read_pub (F.read (public_path data_dir) s)) s)
  unfolding key_of pure
  key_of-KeepsKey data_dir k s full =
      elim (Bool-cases (read_pub (F.read (public_path data_dir) s) == "")) [
        | inl none_there ↦ rw none_there (new_key-KeepsKey data_dir k s full)
        | inr there ↦ rw there (refl, refl, there)
      ]

  ensure_ssh_key-KeepsKey :
      (data_dir : String) (k : KeyPair) (s : F.State)
      → IsPublicKey k.authorized_key
      → KeepsKey data_dir (ensure_ssh_key F data_dir (some k) s)
  unfolding ensure_ssh_key refuse_if ◌>>=◌
  ensure_ssh_key-KeepsKey data_dir k s full = elim (Bool-cases (data_dir == "")) [
    | inl e ↦ rw e tt
    | inr named ↦ elim (Bool-cases (F.make_dir data_dir s).0) [
      | inl bad ↦ rw (named, bad) tt
      | inr made ↦ rw (named, made) (key_of-KeepsKey data_dir k (F.make_dir data_dir s).1 full)
    ]
  ]

  named_of :
      (data_dir : String) (fresh : Option KeyPair) (s : F.State) (path line : String)
      → (ensure_ssh_key F data_dir fresh s).0 ≡ ok (path, line)
      → data_dir == "" ≡ false
  unfolding ensure_ssh_key refuse_if ◌>>=◌
  named_of data_dir fresh s path line = elim (Bool-cases (data_dir == "")) [
    | inl e ↦ rw e (λ h. absurd (cc h))
    | inr named ↦ λ h. named
  ]

  -- Enrolling again keeps the key pair: after a call that returned a public key, a call that can
  -- make the directory returns the same path and key, whatever pair it would have made.
  pub ensure_ssh_key-again :
      (data_dir path line : String) (k : KeyPair) (other : Option KeyPair) (s : F.State)
      → IsPublicKey k.authorized_key
      → (ensure_ssh_key F data_dir (some k) s).0 ≡ ok (path, line)
      → (F.make_dir data_dir (ensure_ssh_key F data_dir (some k) s).1).0 ≡ false
      → (ensure_ssh_key F data_dir other (ensure_ssh_key F data_dir (some k) s).1).0
        ≡ ok (path, line)
  unfolding ensure_ssh_key key_of refuse_if pure ◌>>=◌
  ensure_ssh_key-again data_dir path line k other s full first made =
      after_first (ensure_ssh_key F data_dir (some k) s) first made
        (ensure_ssh_key-KeepsKey data_dir k s full) (named_of data_dir (some k) s path line first)
    where
      after_first :
          (r : Result SshKeyError (String × String) × F.State)
          → r.0 ≡ ok (path, line)
          → (F.make_dir data_dir r.1).0 ≡ false
          → KeepsKey data_dir r
          → data_dir == "" ≡ false
          → (ensure_ssh_key F data_dir other r.1).0 ≡ ok (path, line)
      after_first (ok (p, l), t) e made (at, there, full) named =
          rw (named, made, law.read-make_dir data_dir (public_path data_dir) t, there, full)
            (ap (λ q. ok (q, l)) (sym at) ∙ e)
      after_first (err x, t) e made h named = absurd (cc e)
