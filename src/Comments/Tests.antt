-- ===== src/Comments/Tests.antt =====
-- A program with comments, and an instance of the theorem.
use dexpi_datalog.Prelude.{◌≡◌, refl}
use dexpi_datalog.Prelude.Text.{occurs}
use dexpi_datalog.Comments.{clean, without_datalog_comments}
use dexpi_datalog.Comments.Clean.{without_datalog_comments_idem}

cleaned_runs :
    (without_datalog_comments "p(\"//a\"). // b\nq./*c\n*/r" ≡ "p(\"//a\"). \nq.\nr")
    × (without_datalog_comments "p./*/ q" ≡ "p.")
unfolding without_datalog_comments clean occurs
cleaned_runs = (refl, refl)

without_datalog_comments_idem_example :
    without_datalog_comments (without_datalog_comments "p(\"//a\"). // b\nq./*c\n*/r")
    ≡ without_datalog_comments "p(\"//a\"). // b\nq./*c\n*/r"
without_datalog_comments_idem_example = without_datalog_comments_idem "p(\"//a\"). // b\nq./*c\n*/r"
