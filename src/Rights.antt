-- ===== src/Rights.antt =====
-- rights.go: the rights of a file descriptor, as bits of a 64-bit word.
pub mod Laws
use wasi_go.Base.{ℕ, ◌-◌, ◌^◌, bit_and, bit_or, Bool, ◌==◌, not}
use wasi_go.Bits.{and_not}

abbrev pub fd_data_sync_right : ℕ
fd_data_sync_right = 2 ^ 0

abbrev pub fd_read_right : ℕ
fd_read_right = 2 ^ 1

abbrev pub fd_seek_right : ℕ
fd_seek_right = 2 ^ 2

abbrev pub fd_stat_set_flags_right : ℕ
fd_stat_set_flags_right = 2 ^ 3

abbrev pub fd_sync_right : ℕ
fd_sync_right = 2 ^ 4

abbrev pub fd_tell_right : ℕ
fd_tell_right = 2 ^ 5

abbrev pub fd_write_right : ℕ
fd_write_right = 2 ^ 6

abbrev pub fd_advise_right : ℕ
fd_advise_right = 2 ^ 7

abbrev pub fd_allocate_right : ℕ
fd_allocate_right = 2 ^ 8

abbrev pub path_create_directory_right : ℕ
path_create_directory_right = 2 ^ 9

abbrev pub path_create_file_right : ℕ
path_create_file_right = 2 ^ 10

abbrev pub path_link_source_right : ℕ
path_link_source_right = 2 ^ 11

abbrev pub path_link_target_right : ℕ
path_link_target_right = 2 ^ 12

abbrev pub path_open_right : ℕ
path_open_right = 2 ^ 13

abbrev pub fd_read_dir_right : ℕ
fd_read_dir_right = 2 ^ 14

abbrev pub path_read_link_right : ℕ
path_read_link_right = 2 ^ 15

abbrev pub path_rename_source_right : ℕ
path_rename_source_right = 2 ^ 16

abbrev pub path_rename_target_right : ℕ
path_rename_target_right = 2 ^ 17

abbrev pub path_file_stat_get_right : ℕ
path_file_stat_get_right = 2 ^ 18

abbrev pub path_file_stat_set_size_right : ℕ
path_file_stat_set_size_right = 2 ^ 19

abbrev pub path_file_stat_set_times_right : ℕ
path_file_stat_set_times_right = 2 ^ 20

abbrev pub fd_file_stat_get_right : ℕ
fd_file_stat_get_right = 2 ^ 21

abbrev pub fd_file_stat_set_size_right : ℕ
fd_file_stat_set_size_right = 2 ^ 22

abbrev pub fd_file_stat_set_times_right : ℕ
fd_file_stat_set_times_right = 2 ^ 23

abbrev pub path_symlink_right : ℕ
path_symlink_right = 2 ^ 24

abbrev pub path_remove_directory_right : ℕ
path_remove_directory_right = 2 ^ 25

abbrev pub path_unlink_file_right : ℕ
path_unlink_file_right = 2 ^ 26

abbrev pub poll_fd_read_write_right : ℕ
poll_fd_read_write_right = 2 ^ 27

abbrev pub sock_shutdown_right : ℕ
sock_shutdown_right = 2 ^ 28

abbrev pub sock_accept_right : ℕ
sock_accept_right = 2 ^ 29

abbrev pub all_rights : ℕ
all_rights = 2 ^ 30 - 1

abbrev pub read_rights : ℕ
read_rights = bit_or fd_read_right fd_read_dir_right

abbrev pub write_rights : ℕ
write_rights =
    bit_or fd_write_right
      (bit_or fd_allocate_right (bit_or path_file_stat_set_size_right fd_data_sync_right))

abbrev pub sync_rights : ℕ
sync_rights = bit_or fd_sync_right fd_data_sync_right

abbrev pub seek_rights : ℕ
seek_rights = bit_or fd_seek_right fd_tell_right

abbrev pub file_stat_rights : ℕ
file_stat_rights =
    bit_or fd_file_stat_get_right (bit_or fd_file_stat_set_size_right fd_file_stat_set_times_right)

abbrev pub path_rights : ℕ
path_rights = bit_or path_create_directory_right (
    bit_or path_create_file_right (
      bit_or path_link_source_right (
        bit_or path_link_target_right (
          bit_or path_open_right (
            bit_or path_read_link_right (
              bit_or path_rename_source_right (
                bit_or path_rename_target_right (
                  bit_or path_file_stat_get_right (
                    bit_or path_file_stat_set_size_right (
                      bit_or path_file_stat_set_times_right (
                        bit_or path_symlink_right
                          (bit_or path_remove_directory_right path_unlink_file_right))))))))))))

abbrev pub file_rights : ℕ
file_rights = bit_or sync_rights (
    bit_or seek_rights (
      bit_or file_stat_rights (
        bit_or fd_read_right (
          bit_or fd_stat_set_flags_right (
            bit_or fd_write_right
              (bit_or fd_advise_right (bit_or fd_allocate_right poll_fd_read_write_right)))))))

abbrev pub directory_rights : ℕ
directory_rights = bit_or path_rights (
    bit_or sync_rights (bit_or file_stat_rights (bit_or fd_stat_set_flags_right fd_read_dir_right)))

abbrev pub tty_rights : ℕ
tty_rights = and_not 64 file_rights seek_rights

abbrev pub sock_listen_rights : ℕ
sock_listen_rights =
    bit_or sock_accept_right
      (bit_or poll_fd_read_write_right (bit_or fd_file_stat_get_right fd_stat_set_flags_right))

abbrev pub sock_connection_rights : ℕ
sock_connection_rights = bit_or fd_read_right (
    bit_or fd_write_right (
      bit_or poll_fd_read_write_right
        (bit_or sock_shutdown_right (bit_or fd_file_stat_get_right fd_stat_set_flags_right))))

-- `Has`, the same method on every type of flags in the library.
unfoldable pub has : ℕ → ℕ → Bool
has flags f = bit_and flags f == f

unfoldable pub has_any : ℕ → ℕ → Bool
has_any flags f = not (bit_and flags f == 0)
