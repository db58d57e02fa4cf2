-- ===== src/Tests/Staged.antt =====
-- Collections of src/virtual_fs/staging.rs over a small budget.
use hf_mount.Base.{◌≡◌, ◌==◌, if◌then◌else◌, refl, true, false, some, [], ◌∷◌, nat_eq, text_eq}
use hf_mount.Base.HashMap
use hf_mount.Inode.Evict.{staging_gc_candidates}
use hf_mount.Staging.{StagingDir, Outside, is_clean, gc}
use hf_mount.Staging.Collected.{gc-files}
use hf_mount.Staging.Budget.{IsQuiet, IsSettled, gc-IsSettled}
use hf_mount.Tests.Inodes.{with_file}
use hf_mount.Tests.Flushes.{flushing, dirty_there, generation_1}

abbrev full_dir : StagingDir
full_dir = record { files = (3, 8) ∷ []; bytes_used = 8; max_bytes = 4 }

abbrev alone : Outside
alone = record { removes = λ ino. true; others = λ ino t. t }

alone-IsQuiet : IsQuiet alone
alone-IsQuiet = record { removes_all = λ ino. refl; alone = λ ino t. refl }

-- Inode 3 is written while its lock is waited for.
abbrev writing : Outside
writing = record { removes = λ ino. true; others = λ ino t. if ino == 3 then flushing else t }

unclean : is_clean flushing 3 ≡ false
unclean = rw dirty_there (rw generation_1 refl)

gc-files_example : HashMap.get (gc writing full_dir with_file).0.files 3 ≡ some 8
unfolding HashMap.get
gc-files_example = gc-files writing full_dir with_file 3 (λ u. unclean)

gc-IsSettled_example :
    IsSettled (gc alone full_dir with_file).0 with_file (staging_gc_candidates with_file)
gc-IsSettled_example = gc-IsSettled alone alone-IsQuiet full_dir with_file
