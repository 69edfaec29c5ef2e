-- ===== src/Server/Failing.antt =====
-- The assertions of the server's `read_cb`.
use net_file_transfer.Base.{
  ℕ, ◌<◌, ◌^◌, ◌≡◌, ◌≢◌, ◌↔◌, refl, sym, ap, ◌∙◌, inl, inr, Bool, true, false, Bool-cases, ◌==◌,
  ==_iff, List, Outcome, ok, aborted, ◌>>◌, assert, assert_holds, length, arith,
}
use net_file_transfer.Memory.{text, basename}
use net_file_transfer.Memory.BaseText.{strip_slashes-strcpy}
use net_file_transfer.LibEvent.{LibEvent, IsLibEvent, incoming}
use net_file_transfer.OpenSsl.{Md5}
use net_file_transfer.FileInfo.{FileInfo}
use net_file_transfer.Stdio.{World}
use net_file_transfer.Stdio.Files.{fopen_wb_ok, refused_name}
use net_file_transfer.Interface.{file_data, WriteArg, writefile}
use net_file_transfer.Interface.Write.{writefile_lem}
use net_file_transfer.Server.{Server, read_data, read_cb}
use net_file_transfer.Server.Receive.{CanWrite, ready_world, read_cb-Received}

ok_ne_aborted : {A : Type 0} {a : A} → ok a ≢ aborted
ok_ne_aborted e = cc

-- An assertion that fails, whatever comes behind it.
assert_fails :
    {A : Type 0} {b : Bool} → b ≡ false → (next : Outcome A) → (assert b >> next) ≡ aborted
assert_fails e next = rw e refl

module _ {l : LibEvent} (m : Md5) (lv : IsLibEvent l) where
  -- `writefile` needs a name that can be opened, and memory.
  writefile_refused :
      (w : World) (args : WriteArg l) (path : List ℕ)
      → text args.finfo.name ≡ ok path
      → w.writable (basename path) ≡ false
      → writefile l m w args ≡ aborted
  unfolding writefile
  writefile_refused w args path named cannot =
      let (name, cut, _, _) = strip_slashes-strcpy args.finfo.name path named in
      rw (named, cut, refused_name w (basename path) cannot) refl

  writefile_starved :
      (w : World) (args : WriteArg l) (path : List ℕ)
      → text args.finfo.name ≡ ok path
      → w.writable (basename path) ≡ true
      → w.malloc ≡ false
      → writefile l m w args ≡ aborted
  unfolding writefile
  writefile_starved w args path named can starved =
      let (name, cut, _, _) = strip_slashes-strcpy args.finfo.name path named in
      rw (named, cut, fopen_wb_ok w (basename path) can) (assert_fails starved _)

  module _ (s : Server) (stack : FileInfo) (bev : l.BufferEvent) {path : List ℕ}
      (asking : s.status ≡ file_data) (all : length (incoming l bev) ≡ stack.size)
      (bound : stack.size < 2 ^ 64) (named : text stack.name ≡ ok path) where
    abbrev args : WriteArg l
    args = record { finfo = stack; buffer = l.get_input bev }

    creation_fails : (s.world.pthread_create == 0) ≡ false → read_cb l m s stack bev ≡ aborted
    unfolding read_cb read_data
    creation_fails e =
        rw (asking, lv.length_contents (l.get_input bev), (==_iff _ _).1 all) (assert_fails e _)

    writing_fails :
        (s.world.pthread_create == 0) ≡ true
        → writefile l m (ready_world s) args ≡ aborted
        → read_cb l m s stack bev ≡ aborted
    unfolding read_cb read_data
    writing_fails created e =
        rw (asking, lv.length_contents (l.get_input bev), (==_iff _ _).1 all)
          (assert_holds created _ ∙ rw e refl)

    joining_fails :
        (s.world.pthread_create == 0) ≡ true
        → s.world.writable (basename path) ≡ true
        → s.world.malloc ≡ true
        → (s.world.pthread_join == 0) ≡ false
        → read_cb l m s stack bev ≡ aborted
    unfolding read_cb read_data
    joining_fails created can memory e =
        let (ret, w', args', run, v) =
          writefile_lem m lv (ready_world s) args named refl can memory (omega (arith, all)) in
        let failed : (w'.pthread_join == 0) ≡ false =
          ap (λ (n : ℕ). n == 0) v.left.pthread_join ∙ e in
        rw (asking, lv.length_contents (l.get_input bev), (==_iff _ _).1 all)
          (assert_holds created _ ∙ rw run (assert_fails failed _))

    -- While the server waits for data, as many bytes wait as the header on its stack says (fewer
    -- than 2^64), and the name ends within its array: an assertion of `read_cb` fails exactly if
    -- the environment does not let it write, that is if `pthread_create` or `pthread_join` fails,
    -- the name cannot be opened, or there is no memory.
    pub read_cb_aborts : (read_cb l m s stack bev ≡ aborted) ↔ (¬ CanWrite s.world path)
    read_cb_aborts = (
      λ e can.
          let (_, _, _, ran, _, _, _, _) =
            read_cb-Received m lv s stack bev asking all bound named can in
          ok_ne_aborted (sym ran ∙ e),
      λ cannot. elim (Bool-cases (s.world.pthread_create == 0)) [
        | inr e ↦ creation_fails e
        | inl created ↦ elim (Bool-cases (s.world.writable (basename path))) [
          | inr e ↦ writing_fails created (writefile_refused (ready_world s) args path named e)
          | inl can ↦ elim (Bool-cases s.world.malloc) [
            | inr e ↦
                writing_fails created (writefile_starved (ready_world s) args path named can e)
            | inl memory ↦ elim (Bool-cases (s.world.pthread_join == 0)) [
              | inr e ↦ joining_fails created can memory e
              | inl joined ↦ absurd (
                  cannot (record {
                    creates = (==_iff _ 0).0 created;
                    joins = (==_iff _ 0).0 joined;
                    allocates = memory;
                    opens = can;
                  }))
            ]
          ]
        ]
      ],
    )
