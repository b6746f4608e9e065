-- ===== src/Payload/Steps.antt =====
-- The steps of `WritePayloadFileAtomically` (src/core/payload_service.cpp), one operation at a time.
use agent_memory_cpp.Prelude.{arith, Option, suc, ◌≡◌, refl, true, false, none, some, [], take}
use agent_memory_cpp.Text.{Text, codes}
use agent_memory_cpp.Payload.Disk.{
  Disk, without_file, put_file, move_file, located, open_truncated, write_file, rename_file,
  remove_file, remove_named, next, is_some, exists, find_file, last_message,
}
use agent_memory_cpp.Payload.Write.{write_error, give_up, finalize, write_opened, write_through}

-- Each step by the result of its operation on the disk.
module _ (temp_path payload_path content message details : Text) (d : Disk) where
  pub give_up_removed :
      d.system.removes d.calls ≡ true
      → (give_up temp_path message details d).1 ≡ record d {
        files = without_file (located d.system temp_path) d.files;
        calls = suc d.calls;
      }
  unfolding give_up remove_file remove_named
  give_up_removed e = rw e refl

  pub give_up_error : (give_up temp_path message details d).0 ≡ some (write_error message details)
  unfolding give_up
  give_up_error = refl

  pub finalize_moved :
      d.system.renames d.calls ≡ true
      → finalize temp_path payload_path d ≡ (
        none,
        record d {
          files = move_file (located d.system temp_path) (located d.system payload_path) d.files;
          calls = suc d.calls;
        },
      )
  unfolding finalize rename_file
  finalize_moved e = rw e refl

  pub finalize_stuck :
      d.system.renames d.calls ≡ false
      → finalize temp_path payload_path d
        ≡ give_up temp_path
            (codes "failed to finalize payload file")
            (last_message (next d))
            (next d)
  unfolding finalize rename_file
  finalize_stuck e = rw e refl

  pub write_opened_done :
      d.system.writes d.calls ≡ true
      → write_opened temp_path payload_path content d
        ≡ finalize temp_path payload_path (record d {
          files = put_file (located d.system temp_path) content d.files;
          calls = suc d.calls;
        })
  unfolding write_opened write_file
  write_opened_done e = rw e refl

  pub write_opened_failed :
      d.system.writes d.calls ≡ false
      → write_opened temp_path payload_path content d
        ≡ give_up temp_path (codes "failed to write payload temp file") [] (record d {
          files =
              put_file
                (located d.system temp_path)
                (take (d.system.written d.calls) content)
                d.files;
          calls = suc d.calls;
        })
  unfolding write_opened write_file
  write_opened_failed e = rw e refl

  pub write_through_opened :
      d.system.opens d.calls ≡ true
      → write_through temp_path payload_path content d
        ≡ write_opened temp_path payload_path content (record d {
          files = put_file (located d.system temp_path) [] d.files;
          calls = suc d.calls;
        })
  unfolding write_through open_truncated
  write_through_opened e = rw e refl

  pub write_through_shut :
      d.system.opens d.calls ≡ false
      → write_through temp_path payload_path content d
        ≡ (some (write_error (codes "failed to open payload temp file for write") []), next d)
  unfolding write_through open_truncated
  write_through_shut e = rw e refl

module _ (payload_path content : Text) (d : Disk) where
  pub exists_absent :
      d.system.stats d.calls ≡ true
      → (exists payload_path d).0 ≡ false
      → find_file (located d.system payload_path) d.files ≡ none
  unfolding exists
  exists_absent e h =
      absent (find_file (located d.system payload_path) d.files) (ground (arith, e, h))
    where
      absent : (o : Option Text) → is_some o ≡ false → o ≡ none
      absent none h = refl
      absent (some content) h = absurd (ground arith)
